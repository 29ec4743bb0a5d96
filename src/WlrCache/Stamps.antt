-- ===== src/WlrCache/Stamps.antt =====
-- The stamps of internal/wlrcache/wlrcache.go on an object that the API has stored.
use k8s_sustain.Prelude.{◌≡◌, refl, sym, ap, ◌∙◌, Bool, is_filled, arith, inl, inr, Bool-cases}
use k8s_sustain.Prelude.Time.{Time, add, rfc3339_copy}
use k8s_sustain.WlrCache.{Object, Status, Lifetimes, window, stamp, servable_until, last_computed}

-- An object as the API stores it and hands it back: its instants at the precision of a second.
abbrev pub stored : {F Q : Type 0} → Status F Q → Status F Q
stored s = record s {
  observed_at = rfc3339_copy s.observed_at;
  servable_until = rfc3339_copy s.servable_until;
}

rfc3339_copy_again : (t : Time) → rfc3339_copy (rfc3339_copy t) ≡ rfc3339_copy t
unfolding rfc3339_copy
rfc3339_copy_again t = omega arith

rfc3339_copy_zero : rfc3339_copy 0 ≡ 0
unfolding rfc3339_copy
rfc3339_copy_zero = refl

-- A creation that is a whole second stays the later of the two, or not, once the other is stored.
last_computed-stored :
    (created observed : Time)
    → rfc3339_copy created ≡ created
    → rfc3339_copy (last_computed created (rfc3339_copy observed))
      ≡ rfc3339_copy (last_computed created observed)
unfolding rfc3339_copy
last_computed-stored created observed whole = ground arith

module _ {F Q : Type 0} where
  -- Stamping a status again once it is stored reproduces the stored stamp.
  pub servable_until-stored :
      (l : Lifetimes) (created : Time) (s : Status F Q)
      → rfc3339_copy created ≡ created
      → servable_until l created (stored s) ≡ rfc3339_copy (servable_until l created s)
  unfolding servable_until window rfc3339_copy
  servable_until-stored l created s whole = elim (Bool-cases (is_filled s.containers)) [
    | inl full ↦
        let w = window l s in
        rw full (
          ap (λ t. rfc3339_copy (add t w)) (last_computed-stored created s.observed_at whole)
          ∙ sym (rfc3339_copy_again (add (rfc3339_copy (last_computed created s.observed_at)) w)))
    | inr empty ↦ rw empty
  ]

  -- The stamp that stands in a status is not read.
  restamp :
      (l : Lifetimes) (created : Time) (s : Status F Q) (t : Time)
      → rfc3339_copy created ≡ created
      → servable_until l created (stored (record s { servable_until = t }))
        ≡ rfc3339_copy (servable_until l created s)
  unfolding servable_until window
  restamp l created s t whole = servable_until-stored l created s whole

  -- A stamp is the formula's, or there was none to renew.
  pub stamp-stored :
      (l : Lifetimes) (o : Object F Q) (s : Status F Q) (c : Bool)
      → rfc3339_copy o.created ≡ o.created
      → let t = stored (record s { servable_until = stamp l o s c }) in
        stamp l (record o { status = t }) t c ≡ t.servable_until
  unfolding stamp
  stamp-stored l o s c whole =
      ground (arith, rfc3339_copy_zero, restamp l o.created s (stamp l o s c) whole)
