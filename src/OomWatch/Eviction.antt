-- ===== src/OomWatch/Eviction.antt =====
-- The scan for the oldest entry of internal/oomwatch/cache.go.
use k8s_sustain.Prelude.{
  ◌≤◌, ◌≡◌, refl, sym, ap, ◌∙◌, Bool, true, false, Option, none, some, List, [], ◌∷◌, lookup,
  if_pos, if_neg, arith, All, if◌then◌else◌, Distinct, ltb, ◌⊎◌, inl, inr, is_filled,
}
use k8s_sustain.Prelude.Time.{Time}
use k8s_sustain.OomWatch.Cache.{oldest}

module _ {K V : Type 0} (dec : Discrete K) (time : V → Time) where
  -- The key of a pair stands in the map, with the instant of the pair.
  abbrev pub Stands : List (K × V) → K × Time → Type 0
  Stands m b = (v : V) × (lookup dec b.0 m ≡ some v) × (time v ≡ b.1)

  -- What a scan found: nothing of the map, or of what it began with, is older, and it is what the
  -- scan began with or stands in the map.
  abbrev pub Found : List (K × V) → K × Time → Option (K × Time) → Type 0
  Found m a r =
      (b : K × Time) × (r ≡ some b)
      × (b.1 ≤ a.1)
      × All (λ e. b.1 ≤ time e.1) m
      × ((b ≡ a) ⊎ Stands m b)

  found_head :
      (j : K) (w : V) (m : List (K × V)) (b : K × Time)
      → lookup dec j m ≡ none
      → (b ≡ (j, time w)) ⊎ Stands m b
      → Stands ((j, w) ∷ m) b
  unfolding lookup
  found_head j w m b absent (inl e) =
      (w, if_pos (dec b.0 j) (ap (λ p. p.0) e) _ _, sym (ap (λ p. p.1) e))
  found_head j w m b absent (inr (v, e, at)) =
      (v, if_neg (dec b.0 j) (λ p. cc (e, p, absent)) _ _ ∙ e, at)

  Found-turn :
      (test : Bool) (j : K) (w : V) (m : List (K × V)) (k : K) (t : Time) (r : Option (K × Time))
      → lookup dec j m ≡ none
      → ltb (time w) t ≡ test
      → Found m (if test then (j, time w) else (k, t)) r
      → Found ((j, w) ∷ m) (k, t) r
  Found-turn true j w m k t r absent h (b, found, le, all, there) =
      (b, found, ground arith, (le, all), inr (found_head j w m b absent there))
  Found-turn false j w m k t r absent h (b, found, le, all, inl e) =
      (b, found, le, (ground arith, all), inl e)
  Found-turn false j w m k t r absent h (b, found, le, all, inr e) =
      (b, found, le, (ground arith, all), inr (found_head j w m b absent (inr e)))

  pub oldest-Found :
      (m : List (K × V)) (k : K) (t : Time)
      → Distinct dec m
      → Found m (k, t) (oldest time m (some (k, t)))
  unfolding oldest Distinct
  oldest-Found [] k t d = ((k, t), refl, omega arith, tt, inl refl)
  oldest-Found ((j, w) ∷ m) k t (absent, d) =
      Found-turn (ltb (time w) t) j w m k t _ absent refl (oldest-Found m _ _ d)

  -- The scan of a map that is not empty finds an entry of it, and no entry is older.
  pub oldest-Stands :
      (m : List (K × V))
      → is_filled m ≡ true
      → Distinct dec m
      → (b : K × Time) × (oldest time m none ≡ some b) × All (λ e. b.1 ≤ time e.1) m × Stands m b
  unfolding oldest Distinct
  oldest-Stands [] h d = ground arith
  oldest-Stands ((k, v) ∷ m) h (absent, d) =
      let (b, found, le, all, there) = oldest-Found m k (time v) d in
      (b, found, (le, all), found_head k v m b absent there)
