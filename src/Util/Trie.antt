-- ===== src/Util/Trie.antt =====
-- pkg/util/trie/trie.go: a dictionary as a tree of runes. A word is the sequence of runes that `range`
-- gives for a string, and a map of children an association list.
pub mod Dictionary
use uni_core.Base.{ℕ, Bool, true, false, Option, none, some, List, [], ◌∷◌, nat_eq, if◌then◌else◌}
use uni_core.Errors.{GoError}

mutual
  pub data TrieNode : Type 0 where
    node : Bool → TrieMap → TrieNode

  pub data TrieMap : Type 0 where
    empty_map : TrieMap
    entry : ℕ → TrieNode → TrieMap → TrieMap

unfoldable pub child_at : ℕ → TrieMap → Option TrieNode
child_at c empty_map = none
child_at c (entry d n m) = if nat_eq d c then some n else child_at c m

unfoldable pub set_child : ℕ → TrieNode → TrieMap → TrieMap
set_child c n empty_map = entry c n empty_map
set_child c n (entry d o m) = if nat_eq d c then entry c n m else entry d o (set_child c n m)

abbrev pub new : TrieNode
new = node false empty_map

-- The child under a rune, or the one that is made where there is none.
abbrev pub child_or_new : Option TrieNode → TrieNode
child_or_new none = new
child_or_new (some n) = n

-- The pointer walks down and the nodes on its way are written in place.
unfoldable pub add_word : List ℕ → TrieNode → TrieNode
unfolding set_child child_at
add_word [] (node word children) = node true children
add_word (c ∷ cs) (node word children) =
    node word (set_child c (add_word cs (child_or_new (child_at c children))) children)

unfoldable pub check_word : List ℕ → TrieNode → Bool
unfolding child_at
check_word [] (node word children) = word
check_word (c ∷ cs) (node word children) = elim (child_at c children) [
  | none ↦ false
  | some n ↦ check_word cs n
]

-- bufio.Scanner over words: those that it gives, and the error that it ends with.
pub record Scanner : Type 0 where
  pub words : List (List ℕ)
  pub error : Option GoError

unfoldable pub add_words : List (List ℕ) → TrieNode → TrieNode
unfolding add_word
add_words [] t = t
add_words (w ∷ ws) t = add_words ws (add_word w t)

unfoldable pub add_dictionary : Scanner → TrieNode → Option GoError × TrieNode
unfolding add_words
add_dictionary scanner t = (scanner.error, add_words scanner.words t)
