-- ===== src/Fifo/Apart.antt =====
-- The lists of a queue's priorities, and reversed lists of ids.
use nexus_queue.Prelude.{ℕ, ◌≡◌, refl, ap, false, List, [], ◌∷◌, ◌++◌, arith}
use nexus_queue.Prelude.Tests.{==_refl}
use nexus_queue.Prelude.Texts.{Text, text, same, same_refl, is_empty}
use nexus_queue.Prelude.Lists.{All}
use nexus_queue.Shared.Keys.{keys}
use nexus_queue.Shared.Keys
use nexus_queue.Shared.Types.{Priority, priority_text}
use nexus_queue.Worker.Pull.{same_priority}
use nexus_queue.Worker.Pulling.{source_list}

same-longer :
    (n : Text) (c : ℕ) (cs : Text) → (same n (n ++ c ∷ cs) ≡ false) × (same (n ++ c ∷ cs) n ≡ false)
same-longer [] c cs = (refl, refl)
same-longer (x ∷ n) c cs = (ground (arith, same-longer n c cs), ground (arith, same-longer n c cs))

same-append : (n xs ys : Text) → same (n ++ xs) (n ++ ys) ≡ same xs ys
same-append [] xs ys = refl
same-append (x ∷ n) xs ys = rw (==_refl x) (same-append n xs ys)

-- The lists of a queue's priorities are apart.
pub same-source_list :
    (n : Text) (p q : Priority) → same (source_list n p) (source_list n q) ≡ same_priority p q
unfolding keys
same-source_list n Priority.high Priority.high = same_refl (source_list n Priority.high)
same-source_list n Priority.high Priority.normal = (same-longer n b':' (text "high")).1
same-source_list n Priority.high Priority.low = same-append n (text ":high") (text ":low")
same-source_list n Priority.normal Priority.high = (same-longer n b':' (text "high")).0
same-source_list n Priority.normal Priority.normal = same_refl (source_list n Priority.normal)
same-source_list n Priority.normal Priority.low = (same-longer n b':' (text "low")).0
same-source_list n Priority.low Priority.high = same-append n (text ":low") (text ":high")
same-source_list n Priority.low Priority.normal = (same-longer n b':' (text "low")).1
same-source_list n Priority.low Priority.low = same_refl (source_list n Priority.low)

pub target-source_list :
    (n : Text) (p : Priority) → Keys.target_list n (priority_text p) ≡ source_list n p
unfolding keys Keys.target_list
target-source_list n Priority.high = refl
target-source_list n Priority.normal = refl
target-source_list n Priority.low = refl

pub processing-apart :
    (i n : Text) (p : Priority) → same (Keys.processing i) (source_list n p) ≡ false
unfolding keys
processing-apart i n Priority.high = refl
processing-apart i n Priority.normal = refl
processing-apart i n Priority.low = refl

unfoldable pub reverse : List Text → List Text
reverse [] = []
reverse (x ∷ xs) = reverse xs ++ x ∷ []

pub reverse-snoc : (xs : List Text) (y : Text) → reverse (xs ++ y ∷ []) ≡ y ∷ reverse xs
unfolding reverse
reverse-snoc [] y = refl
reverse-snoc (x ∷ xs) y = ap (λ ys. ys ++ x ∷ []) (reverse-snoc xs y)

abbrev pub Given : Text → Type 0
Given id = is_empty id ≡ false

pub Given-snoc :
    (ids : List Text) (id : Text) → All Given ids → Given id → All Given (ids ++ id ∷ [])
Given-snoc [] id h g = (g, tt)
Given-snoc (x ∷ ids) id h g = (h.0, Given-snoc ids id h.1 g)
