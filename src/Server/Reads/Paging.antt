-- ===== src/Server/Reads/Paging.antt =====
-- The pages that the routes cut: server/src/routes.ts.
use nexus_queue.Prelude.{
  ℕ, zero, suc, ◌+◌, ◌*◌, ◌≤◌, ◌≡◌, refl, sym, ap, subst, ◌∙◌, Option, none, some, List, [], ◌∷◌,
  ◌++◌, map, arith,
}
use nexus_queue.Prelude.Texts.{Text}
use nexus_queue.Prelude.Decimal.{to_string}
use nexus_queue.Prelude.Int.{ℤ, pos, negsuc, int_to_string, to_int, to_int-pos}
use nexus_queue.Prelude.Lists.{length, take, drop}
use nexus_queue.Shared.Types.{Status}
use nexus_queue.Services.Reply.{Row}
use nexus_queue.Services.Postgres.{query, rows_of, insert_newest, newest_first}
use nexus_queue.Program.Transfer.{view, run-view}
use nexus_queue.Program.World.{Backend, World, Result, ok, documented, run, calm, rows}
use nexus_queue.Worker.Handlers.{Runtime}
use nexus_queue.Server.Reads.{
  limit_of, offset_of, by, filter_of, JobView, view_row, JobsAnswer, page, list_page, filtered,
  list_jobs,
}

module _ {ℓ} {A : Type ℓ} where
  pub length-take : (n : ℕ) (xs : List A) → length (take n xs) ≤ n
  length-take zero xs = omega arith
  length-take (suc n) [] = omega arith
  length-take (suc n) (x ∷ xs) = omega (arith, length-take n xs)

  pub take-append-drop : (n : ℕ) (xs : List A) → take n xs ++ drop n xs ≡ xs
  take-append-drop zero xs = refl
  take-append-drop (suc n) [] = refl
  take-append-drop (suc n) (x ∷ xs) = ap (λ ys. x ∷ ys) (take-append-drop n xs)

  drop_nil : (n : ℕ) → drop {A = A} n [] ≡ []
  drop_nil zero = refl
  drop_nil (suc n) = refl

  pub drop-drop : (m n : ℕ) (xs : List A) → drop m (drop n xs) ≡ drop (n + m) xs
  drop-drop m zero xs = ap (λ k. drop k xs) (omega arith)
  drop-drop m (suc n) [] = drop_nil m ∙ sym (drop_nil (suc n + m))
  drop-drop m (suc n) (x ∷ xs) =
      drop-drop m n xs ∙ ap (λ k. drop k (x ∷ xs)) {x = suc (n + m)} (omega arith)

  pub drop_all : (n : ℕ) (xs : List A) → length xs ≤ n → drop n xs ≡ []
  drop_all zero [] h = refl
  drop_all zero (x ∷ xs) h = absurd (omega arith)
  drop_all (suc n) [] h = refl
  drop_all (suc n) (x ∷ xs) h = drop_all n xs (omega arith)

  -- The pages of size `l` from an index on.
  abbrev pages : ℕ → ℕ → ℕ → List A → List A
  pages zero l o xs = []
  pages (suc k) l o xs = take l (drop o xs) ++ pages k l (o + l) xs

  pages_cover : (k l o : ℕ) (xs : List A) → length xs ≤ o + k * l → pages k l o xs ≡ drop o xs
  pages_cover zero l o xs h = sym (drop_all o xs (omega arith))
  pages_cover (suc k) l o xs h =
      ap (λ ys. take l (drop o xs) ++ ys)
        (pages_cover k l (o + l) xs (omega arith) ∙ sym (drop-drop l o xs))
      ∙ take-append-drop l (drop o xs)

map-append {ℓ κ} :
    {A : Type ℓ} {B : Type κ} (f : A → B) (xs ys : List A) → map f (xs ++ ys) ≡ map f xs ++ map f ys
map-append f [] ys = refl
map-append f (x ∷ xs) ys = ap (λ zs. f x ∷ zs) (map-append f xs ys)

pub length-map {ℓ κ} :
    {A : Type ℓ} {B : Type κ} (f : A → B) (xs : List A) → length (map f xs) ≡ length xs
length-map f [] = refl
length-map f (x ∷ xs) = ap suc (length-map f xs)

to_int-to_string : (n : ℕ) → to_int (to_string n) ≡ some (pos n)
unfolding int_to_string
to_int-to_string n = to_int-pos n

limit-to_string : (l : ℕ) → 1 ≤ l → l ≤ 200 → limit_of (some (to_string l)) ≡ pos l
limit-to_string zero h g = absurd (omega arith)
limit-to_string (suc l) h g = rw (to_int-to_string (suc l)) (ground arith)

offset-to_string : (o : ℕ) → offset_of (some (to_string o)) ≡ pos o
offset-to_string zero = rw (to_int-to_string zero) refl
offset-to_string (suc o) = rw (to_int-to_string (suc o)) refl

length-insert_newest : (r : Row) (rs : List Row) → length (insert_newest r rs) ≡ suc (length rs)
length-insert_newest r [] = refl
length-insert_newest r (x ∷ xs) = ground (arith, length-insert_newest r xs)

pub length-newest_first : (rs : List Row) → length (newest_first rs) ≡ length rs
length-newest_first [] = refl
length-newest_first (r ∷ rs) =
    length-insert_newest r (newest_first rs) ∙ ap suc (length-newest_first rs)

module _ (uuid : ℕ → Text) (rt : Runtime) (name : Text) (w : World (documented uuid)) where
  -- The jobs of the queue, all or of one status, from the newest on.
  abbrev sorted : Option Status → List Row
  sorted status = newest_first (rows_of name status w.postgres_state)

  list_page-run :
      (status : Option Status) (l o : ℕ)
      → run (documented uuid) (list_page rt name status (pos l) (pos o)) (calm w) ≡ (
        ok (
            page
              (map (view_row rt) (take l (drop o (sorted status))))
              (length (rows_of name status w.postgres_state))),
        calm w,
      )
  unfolding list_page query
  list_page-run status l o = refl

  pub list_jobs-run :
      (q : Option Text) (f : Option Status) (l o : ℕ)
      → filter_of q ≡ by f
      → 1 ≤ l
      → l ≤ 200
      → run
          (documented uuid)
          (list_jobs rt name q (some (to_string l)) (some (to_string o)))
          (calm w)
        ≡ (
          ok (
              page
                (map (view_row rt) (take l (drop o (sorted f))))
                (length (rows_of name f w.postgres_state))),
          calm w,
        )
  unfolding list_jobs
  list_jobs-run q f l o e h g =
      ap
        (λ x.
          run (documented uuid)
            (filtered rt name x (limit_of (some (to_string l))) (offset_of (some (to_string o))))
            (calm w))
        e
      ∙ ap
          (λ x.
            run (documented uuid) (list_page rt name f x (offset_of (some (to_string o)))) (calm w))
          (limit-to_string l h g)
      ∙ ap (λ x. run (documented uuid) (list_page rt name f (pos l) x) (calm w))
          (offset-to_string o)
      ∙ list_page-run f l o

-- The jobs of an answer.
abbrev pub jobs_of : (rt : Runtime) → Result (JobsAnswer rt) → List (JobView rt)
jobs_of rt (ok (page jobs total)) = jobs
jobs_of rt x = []

-- The jobs that a client sees that asks for `k` pages of `l` jobs, from an offset on.
abbrev pub browse :
    (b : Backend) (rt : Runtime) (name : Text) (w : World b) → ℕ → ℕ → ℕ → List (JobView rt)
browse b rt name w zero l o = []
browse b rt name w (suc k) l o =
    jobs_of rt (run b (list_jobs rt name none (some (to_string l)) (some (to_string o))) (calm w)).0
    ++ browse b rt name w k l (o + l)

browse-pages :
    (b : Backend) (rt : Runtime) (name : Text) (w : World b) (k l o : ℕ)
    → 1 ≤ l
    → l ≤ 200
    → browse b rt name w k l o
      ≡ map (view_row rt) (pages k l o (sorted b.uuid rt name (view w) none))
browse-pages b rt name w zero l o h g = refl
browse-pages b rt name w (suc k) l o h g =
    ap (λ x. jobs_of rt x.0 ++ browse b rt name w k l (o + l))
      (run-view b (list_jobs rt name none (some (to_string l)) (some (to_string o))) (calm w)
        ∙ list_jobs-run b.uuid rt name (view w) none none l o refl h g)
    ∙ ap (λ ys. map (view_row rt) (take l (drop o (sorted b.uuid rt name (view w) none))) ++ ys)
        (browse-pages b rt name w k l (o + l) h g)
    ∙ sym (map-append (view_row rt) (take l (drop o (sorted b.uuid rt name (view w) none))) _)

-- A client that asks for page after page of `l` jobs, at most 200, at the offsets 0, `l`, 2`l` and so
-- on, of a queue that nobody changes, sees each job of the queue once, from the newest on, when its
-- `k` pages have room for all of them.
pub pages_show_all :
    (b : Backend) (rt : Runtime) (name : Text) (w : World b) (k l : ℕ)
    → 1 ≤ l
    → l ≤ 200
    → length (rows_of name none (rows w)) ≤ k * l
    → browse b rt name w k l 0 ≡ map (view_row rt) (newest_first (rows_of name none (rows w)))
pages_show_all b rt name w k l h g fits =
    browse-pages b rt name w k l 0 h g
    ∙ ap (map (view_row rt)) (
        pages_cover k l 0 (newest_first (rows_of name none (rows w)))
          (omega (arith, length-newest_first (rows_of name none (rows w)))))

limit_capped : (q : Option Text) (n : ℕ) → limit_of q ≡ pos n → n ≤ 200
limit_capped q n e = ground arith

page-inj :
    (rt : Runtime) (xs ys : List (JobView rt)) (m n : ℕ)
    → ok (page xs m) ≡ ok (page ys n)
    → (xs ≡ ys) × (m ≡ n)
page-inj rt xs ys m n e = (ap (λ r. jobs_of rt r) e, ap (λ r. total_of r) e)
  where
    total_of : Result (JobsAnswer rt) → ℕ
    total_of (ok (page jobs total)) = total
    total_of r = 0

module _ (uuid : ℕ → Text) (rt : Runtime) (name : Text) (w : World (documented uuid))
    (f : Option Status) (jobs : List (JobView rt)) (total : ℕ) where
  page_capped :
      (limit offset : ℤ)
      → ((n : ℕ) → limit ≡ pos n → n ≤ 200)
      → (run (documented uuid) (list_page rt name f limit offset) (calm w)).0 ≡ ok (page jobs total)
      → (length jobs ≤ 200) × (total ≡ length (rows_of name f w.postgres_state))
  unfolding list_page query
  page_capped (pos l) (pos o) small h =
      let (e, t) = page-inj rt _ jobs _ total h in
      (
        subst (λ js. length js ≤ 200) e
            (omega (
              arith,
              length-map (view_row rt) (take l (drop o (sorted uuid rt name w f))),
              length-take l (drop o (sorted uuid rt name w f)),
              small l refl,
            )),
        sym t,
      )
  page_capped (pos l) (negsuc o) small h = cc
  page_capped (negsuc l) o small h = cc

-- Whatever the query is, an answer to `GET /queues/:name/jobs` with a valid status or none, when
-- nothing fails, has at most 200 jobs, and its total counts all the jobs of the queue that fit.
pub answer_capped :
    (b : Backend) (rt : Runtime) (name : Text) (status limit offset : Option Text) (w : World b)
    (f : Option Status) (jobs : List (JobView rt)) (total : ℕ)
    → filter_of status ≡ by f
    → (run b (list_jobs rt name status limit offset) (calm w)).0 ≡ ok (page jobs total)
    → (length jobs ≤ 200) × (total ≡ length (rows_of name f (rows w)))
unfolding list_jobs
answer_capped b rt name status limit offset w f jobs total e h =
    page_capped b.uuid rt name (view w) f jobs total (limit_of limit) (offset_of offset)
      (limit_capped limit)
      (ap
          (λ x.
            (run (documented b.uuid) (filtered rt name x (limit_of limit) (offset_of offset))
              (calm (view w))).0)
          (sym e)
        ∙ sym (ap (λ x. x.0) (run-view b (list_jobs rt name status limit offset) (calm w)))
        ∙ h)
