-- ===== src/Util/Trie/Dictionary.antt =====
-- pkg/util/trie/trie.go: which words a trie accepts.
use uni_core.Base.{
  ℕ, ◌≡◌, refl, ap, ◌∙◌, Bool, true, false, ◌||◌, ◌&&◌, Option, none, some, List, [], ◌∷◌, nat_eq,
  if◌then◌else◌, arith,
}
use uni_core.Util.Trie.{
  TrieNode, node, TrieMap, empty_map, entry, child_at, set_child, new, child_or_new, add_word,
  check_word, Scanner, add_words, add_dictionary,
}

unfoldable pub same_word : List ℕ → List ℕ → Bool
same_word [] [] = true
same_word [] (d ∷ ds) = false
same_word (c ∷ cs) [] = false
same_word (c ∷ cs) (d ∷ ds) = nat_eq c d && same_word cs ds

-- Whether a word is among those of a dictionary.
unfoldable pub listed : List ℕ → List (List ℕ) → Bool
unfolding same_word
listed w [] = false
listed w (v ∷ vs) = same_word v w || listed w vs

child_at-set_child :
    (c d : ℕ) (n : TrieNode) (m : TrieMap)
    → child_at d (set_child c n m) ≡ (if nat_eq c d then some n else child_at d m)
unfolding child_at set_child
child_at-set_child c d n empty_map = refl
child_at-set_child c d n (entry i o m) = ground (arith, child_at-set_child c d n m)

abbrev check_in : List ℕ → Option TrieNode → Bool
check_in cs o = elim o [ none ↦ false | some n ↦ check_word cs n ]

check-new : (w : List ℕ) → check_word w new ≡ false
unfolding check_word child_at
check-new [] = refl
check-new (c ∷ cs) = refl

check-child_or_new :
    (cs : List ℕ) (o : Option TrieNode) → check_word cs (child_or_new o) ≡ check_in cs o
check-child_or_new cs none = check-new cs
check-child_or_new cs (some n) = refl

-- One step down: the child under the rune that was added is written, the others stay.
add_step :
    (same_rune same_rest : Bool) (ds : List ℕ) (n : TrieNode) (was under : Option TrieNode)
    → (same_rune ≡ true → was ≡ under)
    → check_word ds n ≡ (same_rest || check_in ds was)
    → check_in ds (if same_rune then some n else under)
      ≡ (same_rune && same_rest || check_in ds under)
add_step true same_rest ds n was under e h = h ∙ ap (λ o. same_rest || check_in ds o) (e refl)
add_step false same_rest ds n was under e h = refl

same_rune : (c d : ℕ) → nat_eq c d ≡ true → c ≡ d
same_rune c d h = ground arith

-- After AddWord, CheckWord accepts the word that was added and each word that it accepted before,
-- and no other.
pub check-add :
    (w v : List ℕ) (t : TrieNode) → check_word v (add_word w t) ≡ (same_word w v || check_word v t)
unfolding check_word add_word same_word
check-add [] [] (node word m) = refl
check-add [] (d ∷ ds) (node word m) = refl
check-add (c ∷ cs) [] (node word m) = refl
check-add (c ∷ cs) (d ∷ ds) (node word m) =
    let n : TrieNode = add_word cs (child_or_new (child_at c m)) in
    ap (check_in ds) (child_at-set_child c d n m)
    ∙ add_step (nat_eq c d) (same_word cs ds) ds n (child_at c m) (child_at d m)
        (λ h. ap (λ i. child_at i m) (same_rune c d h))
        (check-add cs ds (child_or_new (child_at c m))
          ∙ ap (λ b. same_word cs ds || b) (check-child_or_new ds (child_at c m)))

check-add_words :
    (ws : List (List ℕ)) (v : List ℕ) (t : TrieNode)
    → check_word v (add_words ws t) ≡ (listed v ws || check_word v t)
unfolding add_words listed
check-add_words [] v t = refl
check-add_words (w ∷ ws) v t = ground (arith, check-add_words ws v (add_word w t), check-add w v t)

-- The trie that AddDictionary makes from an empty one accepts exactly the words that the scanner
-- gave, also when the scanner ends with an error, which is returned.
pub check-add_dictionary :
    (scanner : Scanner) (v : List ℕ)
    → (check_word v (add_dictionary scanner new).1 ≡ listed v scanner.words)
      × ((add_dictionary scanner new).0 ≡ scanner.error)
unfolding add_dictionary
check-add_dictionary scanner v =
    (ground (arith, check-add_words scanner.words v new, check-new v), refl)
