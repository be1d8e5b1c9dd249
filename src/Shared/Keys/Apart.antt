-- ===== src/Shared/Keys/Apart.antt =====
-- Which keys of shared/src/keys.ts can meet.
use nexus_queue.Prelude.{◌≡◌, ◌≢◌, refl, Bool, false, ◌||◌, [], ◌∷◌, ◌++◌, arith}
use nexus_queue.Prelude.Tests.{◌==◌}
use nexus_queue.Prelude.Texts.{Text, text, same, same→eq}
use nexus_queue.Shared.Keys.{keys, queue, queue_priority, target_list}

abbrev pub has_colon : Text → Bool
has_colon [] = false
has_colon (c ∷ cs) = (c == b':') || has_colon cs

-- Two texts with no colon, before a colon and a rest.
split_colon :
    (n m p q : Text)
    → has_colon n ≡ false
    → has_colon m ≡ false
    → n ++ (b':' ∷ p) ≡ m ++ (b':' ∷ q)
    → (n ≡ m) × (p ≡ q)
split_colon [] [] p q hn hm e = (refl, cc)
split_colon [] (y ∷ ys) p q hn hm e = ground arith
split_colon (x ∷ xs) [] p q hn hm e = ground arith
split_colon (x ∷ xs) (y ∷ ys) p q hn hm e = ground (arith, split_colon xs ys p q)

no_colon-ne : (n m q : Text) → has_colon n ≡ false → n ≢ m ++ (b':' ∷ q)
no_colon-ne [] [] q hn e = cc
no_colon-ne [] (y ∷ ys) q hn e = cc
no_colon-ne (x ∷ xs) [] q hn e = ground arith
no_colon-ne (x ∷ xs) (y ∷ ys) q hn e = ground (arith, no_colon-ne xs ys q)

-- For queue names with no colon, two priority lists meet only if they are those of one queue and
-- one priority, and neither meets the normal list of a queue.
pub queue_lists_apart :
    (n m p q : Text)
    → has_colon n ≡ false
    → has_colon m ≡ false
    → (queue_priority n p ≡ queue_priority m q → (n ≡ m) × (p ≡ q))
      × (queue n ≢ queue_priority m q)
      × (queue n ≡ queue m → n ≡ m)
unfolding keys
queue_lists_apart n m p q hn hm = (
  λ e. split_colon n m p q hn hm (ground arith),
  λ e. no_colon-ne n m q hn (ground arith),
  λ e. ground arith,
)

-- For queue names with no colon, two queue lists meet only if they are those of one queue and one
-- priority, whatever the priorities are.
pub target_list-injective :
    (n m p q : Text)
    → has_colon n ≡ false
    → has_colon m ≡ false
    → target_list n p ≡ target_list m q
    → (n ≡ m) × (p ≡ q)
unfolding target_list
target_list-injective n m p q hn hm e = ground (
  arith,
  queue_lists_apart n m p q hn hm,
  queue_lists_apart m n q p hm hn,
  same→eq p (text "normal"),
  same→eq q (text "normal"),
)

-- Whatever the names are, the high or low list of a queue is the normal list of another queue,
-- whose name has the priority behind a colon.
pub queue_lists_collide :
    (n p : Text)
    → same p (text "normal") ≡ false
    → target_list n p ≡ target_list (n ++ (text ":" ++ p)) (text "normal")
unfolding keys target_list
queue_lists_collide n p h = rw h
