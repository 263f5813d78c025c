-- ===== src/SessionMap/Laws.antt =====
-- What is found in the map.
use boost_learn.Base.{
  ℕ, ◌≡◌, ◌≢◌, refl, sym, ap, ◌∙◌, List, [], ◌∷◌, Bool, true, false, Option, none, some, ◌==◌,
  if◌then◌else◌, Option-cases, inl, inr, ==_iff, ne→==, arith,
}
use boost_learn.SessionMap.{find_session, insert_session, erase_session}

module _ {Session : Type 0} where
  pub find-erase :
      (ss : List (ℕ × Session)) (v u : ℕ)
      → find_session (erase_session ss v) u ≡ (if v == u then none else find_session ss u)
  unfolding find_session erase_session
  find-erase [] v u = ground arith
  find-erase ((k, s) ∷ rest) v u =
      let ih = find-erase rest v u in grind (arith, ih, ==_iff k v, ==_iff k u, ==_iff v u)

  pub find-erase_self :
      (ss : List (ℕ × Session)) (u : ℕ) → find_session (erase_session ss u) u ≡ none
  find-erase_self ss u = find-erase ss u u ∙ rw ((==_iff u u).1 refl)

  pub find-erase_other :
      (ss : List (ℕ × Session)) (v u : ℕ)
      → v ≢ u
      → find_session (erase_session ss v) u ≡ find_session ss u
  find-erase_other ss v u other = find-erase ss v u ∙ rw (ne→== v u other)

  -- What is under `u` when a session comes under the uuid `k`: the one that was there first.
  abbrev pub first_come : ℕ → ℕ → Option Session → Session → Option Session
  first_come u k (some t) s = some t
  first_come u k none s = if k == u then some s else none

  found_other :
      (o : Option Session) (k u : ℕ) (s : Session) → (k == u) ≡ false → o ≡ first_come u k o s
  found_other none k u s h = rw h
  found_other (some t) k u s h = refl

  insert_new :
      (ss : List (ℕ × Session)) (k u : ℕ) (s : Session) (b : Bool)
      → (k == u) ≡ b
      → find_session ss k ≡ none
      → (if b then some s else find_session ss u) ≡ first_come u k (find_session ss u) s
  insert_new ss k u s false h e = found_other (find_session ss u) k u s h
  insert_new ss k u s true h e =
      let missing : find_session ss u ≡ none = ap (find_session ss) (sym ((==_iff k u).0 h)) ∙ e in
      sym (ap (λ o. first_come u k o s) missing ∙ ap (λ b. if b then some s else none) h)

  insert_old :
      (ss : List (ℕ × Session)) (k u : ℕ) (s t : Session) (b : Bool)
      → (k == u) ≡ b
      → find_session ss k ≡ some t
      → find_session ss u ≡ first_come u k (find_session ss u) s
  insert_old ss k u s t false h e = found_other (find_session ss u) k u s h
  insert_old ss k u s t true h e =
      let there : find_session ss u ≡ some t = ap (find_session ss) (sym ((==_iff k u).0 h)) ∙ e in
      there ∙ sym (ap (λ o. first_come u k o s) there)

  abbrev inserted : List (ℕ × Session) → ℕ → Session → Option Session → List (ℕ × Session)
  inserted ss k s o = elim o [ none ↦ (k, s) ∷ ss | some t ↦ ss ]

  pub find-insert :
      (ss : List (ℕ × Session)) (k u : ℕ) (s : Session)
      → find_session (insert_session ss k s) u ≡ first_come u k (find_session ss u) s
  unfolding find_session insert_session
  find-insert ss k u s = elim (Option-cases (find_session ss k)) [
    | inl e ↦ ap (λ o. find_session (inserted ss k s o) u) e ∙ (insert_new ss k u s (k == u) refl e)
    | inr (t, e) ↦
        ap (λ o. find_session (inserted ss k s o) u) e ∙ (insert_old ss k u s t (k == u) refl e)
  ]
