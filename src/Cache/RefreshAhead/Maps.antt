-- ===== src/Cache/RefreshAhead/Maps.antt =====
-- The comparison of two tables, and the merge of the overlay, by lookups.
use uni_core.Base.{
  ℕ, String, ◌≡◌, refl, ◌↔◌, inl, inr, true, Option, none, some, [], ◌∷◌, Dict, lookup, length,
  IsMap, Covers, Covers-back, length-le-of_Covers, Option-cases, is_some, lookup-cons_self,
  lookup-cons_of_some, lookup-insert, insert-IsMap, eq_iff, if◌then◌else◌, arith,
}
use uni_core.Cache.RefreshAhead.{
  Cacheable, OverlayEntry, all_match, map_equal, matches, merge_overlay, after,
}

module _ {ℓ} {T : Type ℓ} (i : Cacheable T) where
  -- Both absent, or both present and equal by the items' own comparison.
  abbrev pub SameAt : Option T → Option T → Type 0
  SameAt none none = Unit
  SameAt none (some w) = ⊥
  SameAt (some v) none = ⊥
  SameAt (some v) (some w) = i.equal v w ≡ true

  abbrev pub Same : Dict T → Dict T → Type 0
  Same m o = (k : String) → SameAt (lookup k m) (lookup k o)

  all_match-at :
      (m o : Dict T) (k : String) (v : T)
      → all_match i m o ≡ true
      → lookup k m ≡ some v
      → matches i v (lookup k o) ≡ true
  unfolding all_match lookup
  all_match-at [] o k v h e = cc
  all_match-at ((j, w) ∷ m) o k v h e = ground (arith, eq_iff j k, all_match-at m o k v)

  all_match-of :
      (m o : Dict T)
      → IsMap m
      → ((k : String) (v : T) → lookup k m ≡ some v → matches i v (lookup k o) ≡ true)
      → all_match i m o ≡ true
  unfolding all_match
  all_match-of [] o h f = refl
  all_match-of ((j, w) ∷ m) o h f =
      rw
        (
          f j w (lookup-cons_self j w m),
          all_match-of m o h.1 (λ k v e. f k v (lookup-cons_of_some j k w v m h.0 e)),
        )
        refl

  Covers-of_all_match : (m o : Dict T) → all_match i m o ≡ true → Covers m o
  Covers-of_all_match m o h k p = elim (Option-cases (lookup k m)) [
    | inl e ↦ ground arith
    | inr (v, e) ↦ ground (arith, all_match-at m o k v h e)
  ]

  SameAt-of :
      (a b : Option T)
      → (is_some b ≡ true → is_some a ≡ true)
      → ((v : T) → a ≡ some v → matches i v b ≡ true)
      → SameAt a b
  SameAt-of none none f g = tt
  SameAt-of none (some w) f g = cc (f refl)
  SameAt-of (some v) none f g = cc (g v refl)
  SameAt-of (some v) (some w) f g = g v refl

  matches-of_SameAt : (a b : Option T) (v : T) → SameAt a b → a ≡ some v → matches i v b ≡ true
  matches-of_SameAt none b v h e = cc
  matches-of_SameAt (some u) none v h e = absurd h
  matches-of_SameAt (some u) (some w) v h e = ground arith

  present-of_SameAt : (a b : Option T) → SameAt a b → (is_some a ≡ is_some b)
  present-of_SameAt none none h = refl
  present-of_SameAt none (some w) h = absurd h
  present-of_SameAt (some v) none h = absurd h
  present-of_SameAt (some v) (some w) h = refl

  map_equal-Same :
      (m o : Dict T) → IsMap m → length m ≡ length o → all_match i m o ≡ true → Same m o
  map_equal-Same m o hm e h k =
      SameAt-of (lookup k m) (lookup k o) (Covers-back m o hm (Covers-of_all_match m o h) e k)
        (λ v p. all_match-at m o k v h p)

  Same-map_equal : (m o : Dict T) → IsMap m → IsMap o → Same m o → map_equal i m o ≡ true
  unfolding map_equal
  Same-map_equal m o hm ho s =
      let there : Covers m o = λ k p. rw (← present-of_SameAt _ _ (s k)) p in
      let back : Covers o m = λ k p. rw (present-of_SameAt _ _ (s k)) p in
      ground (
        arith,
        length-le-of_Covers m o hm there,
        length-le-of_Covers o m ho back,
        all_match-of m o hm (λ k v p. matches-of_SameAt _ _ v (s k) p),
      )

  -- For maps with one entry for each key, cacheMap.Equal decides whether they have the same keys
  -- with equal values.
  pub map_equal_iff : (m o : Dict T) → IsMap m → IsMap o → ((map_equal i m o ≡ true) ↔ Same m o)
  unfolding map_equal
  map_equal_iff m o hm ho =
      ((λ h. map_equal-Same m o hm (ground arith) (ground arith)), Same-map_equal m o hm ho)

-- What the merge keeps of an overlay entry.
abbrev pub newer {ℓ} : {T : Type ℓ} → ℕ → Option (OverlayEntry T) → Option (OverlayEntry T)
newer r none = none
newer r (some e) = if after e.epoch r then some e else none

-- What the merge shows at a key.
abbrev pub shown {ℓ} : {T : Type ℓ} → ℕ → Option (OverlayEntry T) → Option T → Option T
shown r none backend = backend
shown r (some e) backend = if after e.epoch r then some e.item else backend

module _ {ℓ} {T : Type ℓ} (r : ℕ) (cache : Dict T) where
  pub lookup-merge_overlay :
      (entries : Dict (OverlayEntry T)) (k : String)
      → IsMap entries
      → (lookup k (merge_overlay r cache entries).1 ≡ newer r (lookup k entries))
        × (lookup k (merge_overlay r cache entries).0 ≡ shown r (lookup k entries) (lookup k cache))
  unfolding merge_overlay lookup
  lookup-merge_overlay [] k h = (refl, refl)
  lookup-merge_overlay ((j, e) ∷ entries) k h =
      let (effective, overlay) = merge_overlay r cache entries in
      ground (
        arith,
        eq_iff j k,
        lookup-merge_overlay entries k h.1,
        lookup-insert j k e.item (merge_overlay r cache entries).0,
        lookup-insert j k e (merge_overlay r cache entries).1,
      )

  pub merge_overlay-IsMap :
      (entries : Dict (OverlayEntry T))
      → IsMap cache
      → IsMap (merge_overlay r cache entries).0 × IsMap (merge_overlay r cache entries).1
  unfolding merge_overlay
  merge_overlay-IsMap [] h = (h, tt)
  merge_overlay-IsMap ((j, e) ∷ entries) h = ground (
    arith,
    merge_overlay-IsMap entries h,
    insert-IsMap j e.item (merge_overlay r cache entries).0,
    insert-IsMap j e (merge_overlay r cache entries).1,
  )
