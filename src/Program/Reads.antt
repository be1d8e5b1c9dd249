-- ===== src/Program/Reads.antt =====
-- A question whose answer tells of the id: what a list read knows when the id is in the list.
use nexus_queue.Prelude.{ℕ, ◌≡◌, refl, sym, subst, true, List, [], ◌∷◌, ◌⊎◌, inl, inr}
use nexus_queue.Prelude.Texts.{Text}
use nexus_queue.Prelude.Lists.{has}
use nexus_queue.Services.Reply.{Reply, texts, failure}
use nexus_queue.Services.Redis.{execute, lrange_all}
use nexus_queue.Program.{Prog, redis, ◌>>=◌, ask_texts, as_texts}
use nexus_queue.Program.World.{
  World, Turn, Fault, fine, dropped, lost, documented, interfere, face, serve_next, serve,
}
use nexus_queue.Program.Triple
use nexus_queue.Program.Triple.{in_list, At, Somewhere, Undisturbed, Carries}
use nexus_queue.Program.Keeps.{Keeps, Keeps-throw}

module _ (uuid : ℕ → Text) (id k : Text) where
  -- The reply is a failure, or a list with the id in it.
  abbrev Tells : Reply → Type 0
  Tells r =
      ((e : Text) × (r ≡ failure e)) ⊎ ((ts : List Text) × (r ≡ texts ts) × (has id ts ≡ true))

  face-Tells :
      (f : Fault) (w : World (documented uuid))
      → At uuid id (in_list k) w
      → Tells (face (documented uuid) f (redis (lrange_all k)) w).1
  unfolding execute
  face-Tells fine w h = inr (w.redis_state.lists k, refl, h)
  face-Tells (dropped e) w h = inl (e, refl)
  face-Tells (lost e) w h = inl (e, refl)

  serve-Tells :
      (plan : List Turn) (w : World (documented uuid))
      → Undisturbed uuid id plan
      → At uuid id (in_list k) w
      → Tells (serve_next (documented uuid) plan (redis (lrange_all k)) w).1
  unfolding execute
  serve-Tells [] w u h = inr (w.redis_state.lists k, refl, h)
  serve-Tells (t ∷ ts) w u h =
      face-Tells t.fault (interfere (documented uuid) t.others (record w { plan = ts }))
        (u.0 (in_list k) (record w { plan = ts }) h)

  Carries-lrange_all : Carries uuid id (in_list k) (redis (lrange_all k)) (in_list k)
  unfolding execute
  Carries-lrange_all = record { at = λ w h. inl h }

  by_reply :
      {A : Type 0} (f : List Text → Prog A) (r : Reply)
      → ((ts : List Text) → has id ts ≡ true → Keeps uuid id (in_list k) (f ts))
      → Tells r
      → Keeps uuid id (in_list k) (as_texts r >>= f)
  by_reply f r t (inl (e, p)) =
      subst (λ x. Keeps uuid id (in_list k) (as_texts x >>= f)) (sym p) (Keeps-throw uuid id e)
  by_reply f r t (inr (ts, p, h)) =
      subst (λ x. Keeps uuid id (in_list k) (as_texts x >>= f)) (sym p) (t ts h)

  -- A read of the list, and what follows for every list that has the id.
  pub Keeps-lrange_all :
      {A : Type 0} {f : List Text → Prog A}
      → ((ts : List Text) → has id ts ≡ true → Keeps uuid id (in_list k) (f ts))
      → Keeps uuid id (in_list k) (ask_texts (lrange_all k) >>= f)
  Keeps-lrange_all {f = f} t = record {
    at = λ w u h.
        let (landed, u') =
          Triple.serve-Safely uuid id (in_list k) (in_list k) (redis (lrange_all k)) w
            Carries-lrange_all u h in
        (by_reply f (serve (documented uuid) (redis (lrange_all k)) w).1 t
            (serve-Tells w.plan w u h)).at
          (serve (documented uuid) (redis (lrange_all k)) w).0 u'
          (Triple.stays uuid id (in_list k) (serve (documented uuid) (redis (lrange_all k)) w)
            landed);
  }
