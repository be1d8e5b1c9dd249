-- ===== src/Dashboard/QueueDetail/Clicks.antt =====
-- What clicks on Next show, when the server pages one list: dashboard/src/pages/QueueDetail.tsx.
use nexus_queue.Prelude.{
  ℕ, zero, suc, ◌+◌, ◌*◌, ◌≤◌, ◌≡◌, refl, sym, ap, ◌∙◌, true, false, Option, none, some, List, [],
  ◌∷◌, ◌++◌, map, inl, inr, arith,
}
use nexus_queue.Prelude.Tests.{◌==◌, Bool-cases}
use nexus_queue.Prelude.Texts.{Text, same_refl}
use nexus_queue.Prelude.Lists.{length, take, drop}
use nexus_queue.Program.World.{Result, ok}
use nexus_queue.Dashboard.Api.{Params}
use nexus_queue.Dashboard.QueueDetail.{
  page_params, Page, receive, next, can_go_on, step, settle, click_through,
}
use nexus_queue.Server.Reads.Paging.{take-append-drop, drop-drop}

module _ {ℓ} {A : Type ℓ} where
  take_all : (n : ℕ) (xs : List A) → length xs ≤ n → take n xs ≡ xs
  take_all zero [] h = refl
  take_all zero (x ∷ xs) h = absurd (omega arith)
  take_all (suc n) [] h = refl
  take_all (suc n) (x ∷ xs) h = ap (λ ys. x ∷ ys) (take_all n xs (omega arith))

  length-drop : (n k : ℕ) (xs : List A) → length xs ≤ n + k → length (drop n xs) ≤ k
  length-drop zero k xs h = omega arith
  length-drop (suc n) k [] h = omega arith
  length-drop (suc n) k (x ∷ xs) h = length-drop n k xs (omega arith)

  last_part : (o l : ℕ) (xs : List A) → length xs ≤ o + l → take l (drop o xs) ≡ drop o xs
  last_part o l xs h = take_all l (drop o xs) (length-drop o l xs h)

  two_parts : (o l : ℕ) (xs : List A) → take l (drop o xs) ++ drop (o + l) xs ≡ drop o xs
  two_parts o l xs =
      ap (λ ys. take l (drop o xs) ++ ys) (sym (drop-drop l o xs)) ∙ take-append-drop l (drop o xs)

module _ {ℓ κ} {A : Type ℓ} {B : Type κ} (f : A → B) where
  pub map-take : (n : ℕ) (xs : List A) → map f (take n xs) ≡ take n (map f xs)
  map-take zero xs = refl
  map-take (suc n) [] = refl
  map-take (suc n) (x ∷ xs) = ap (λ ys. f x ∷ ys) (map-take n xs)

  pub map-drop : (n : ℕ) (xs : List A) → map f (drop n xs) ≡ drop n (map f xs)
  map-drop zero xs = refl
  map-drop (suc n) [] = refl
  map-drop (suc n) (x ∷ xs) = map-drop n xs

module _ {Job : Type 0} (server : Params → Result (List Job × ℕ)) (s : Text) (ys : List Job)
    (sel : Option Text) where
  -- The server pages one list.
  abbrev pub Pages : Type 0
  Pages = (o : ℕ) → server (page_params s o) ≡ ok (take 20 (drop o ys), length ys)

  -- The settled page at an offset, and the page that asks for it.
  abbrev at : ℕ → Page Job
  at o = record {
    jobs = take 20 (drop o ys);
    total = length ys;
    status = s;
    offset = o;
    selected_job_id = sel;
    requests = [];
  }

  abbrev pub asking : List Job → ℕ → ℕ → Page Job
  asking js n o = record {
    jobs = js;
    total = n;
    status = s;
    offset = o;
    selected_job_id = sel;
    requests = page_params s o ∷ [];
  }

  pub settle-asking : Pages → (js : List Job) (n o : ℕ) → settle Job server (asking js n o) ≡ at o
  settle-asking law js n o =
      ap (λ r. receive Job r (record (asking js n o) { requests = [] })) (law o)

  next-at :
      (o : ℕ)
      → can_go_on Job (at o) ≡ true
      → step Job (at o) next ≡ some (asking (take 20 (drop o ys)) (length ys) (o + 20))
  unfolding step
  next-at o h = rw h (rw (same_refl s) (rw (later o) refl))
    where
      later : (o : ℕ) → (o + 20 == o) ≡ false
      later o = ground arith

  stays-at : (o : ℕ) → can_go_on Job (at o) ≡ false → step Job (at o) next ≡ none
  unfolding step
  stays-at o h = rw h refl

  last_page : (m o : ℕ) → o ≡ m * 20 → can_go_on Job (at o) ≡ false → length ys ≤ o + 20
  last_page m o e h = ground arith

  pub click-at :
      (k m o : ℕ)
      → Pages
      → o ≡ m * 20
      → length ys ≤ o + 20 + k * 20
      → click_through Job server k (at o) ≡ drop o ys
  click-at zero m o law e h = last_part o 20 ys (omega arith)
  click-at (suc k) m o law e h = elim (Bool-cases (can_go_on Job (at o))) [
    | inl goes ↦
        rw (next-at o goes, click_through)
          (ap (λ p. take 20 (drop o ys) ++ click_through Job server k p)
              (settle-asking law (take 20 (drop o ys)) (length ys) (o + 20))
            ∙ ap (λ zs. take 20 (drop o ys) ++ zs)
                (click-at k (suc m) (o + 20) law (omega arith) (omega arith))
            ∙ two_parts o 20 ys)
    | inr ends ↦ rw (stays-at o ends, click_through) (last_part o 20 ys (last_page m o e ends))
  ]
