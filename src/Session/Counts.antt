-- ===== src/Session/Counts.antt =====
-- How the abstract steps move the tokens of one session that are not revoked.
use maintmode.Base.{
  str_eq_self, ℕ, suc, ◌≤◌, ◌<◌, String, ◌≡◌, refl, inl, inr, Bool, true, false, not, ◌&&◌, List,
  [], ◌∷◌, map, arith, ◌==◌, if◌then◌else◌, Bool-cases, filter, All, Member, here, there,
}
use maintmode.Entity.Session.{RefreshToken}
use maintmode.Session.Tokens.{revoke_row, rotate_row, rotated, revoked_at}

-- The tokens of a session that are not revoked.
abbrev pub is_open : ℕ → RefreshToken → Bool
is_open family r = r.family == family && not r.revoked

abbrev pub open_count : ℕ → List RefreshToken → ℕ
open_count family [] = 0
open_count family (r ∷ rows) =
    let rest = open_count family rows in if is_open family r then suc rest else rest

module _ (family : ℕ) where
  pub open_count-map :
      (g : RefreshToken → RefreshToken) (rows : List RefreshToken)
      → ((r : RefreshToken) → is_open family (g r) ≡ true → is_open family r ≡ true)
      → open_count family (map g rows) ≤ open_count family rows
  open_count-map g [] h = omega arith
  open_count-map g (r ∷ rows) h =
      let rest = open_count-map g rows h in
      let here' = h r in
      elim (Bool-cases (is_open family (g r))) [
        | inl still ↦ rw (still, h r still) (omega (arith, rest))
        | inr closed ↦ rw closed (elim (Bool-cases (is_open family r)) [
          | inl was ↦ rw was (omega (arith, rest))
          | inr was ↦ rw was rest
        ])
      ]

  pub open_count-filter :
      (kept : RefreshToken → Bool) (rows : List RefreshToken)
      → open_count family (filter kept rows) ≤ open_count family rows
  open_count-filter kept [] = omega arith
  open_count-filter kept (r ∷ rows) =
      let rest = open_count-filter kept rows in
      elim (Bool-cases (kept r)) [
        | inl stays ↦ rw stays (elim (Bool-cases (is_open family r)) [
          | inl was ↦ rw was (omega (arith, rest))
          | inr was ↦ rw was rest
        ])
        | inr gone ↦ rw gone (elim (Bool-cases (is_open family r)) [
          | inl was ↦ rw was (omega (arith, rest))
          | inr was ↦ rw was rest
        ])
      ]

  pub open_count-new :
      (next : ℕ) (rows : List RefreshToken)
      → next ≤ family
      → All (λ r. r.family < next) rows
      → open_count family rows ≡ 0
  open_count-new next [] le h = refl
  open_count-new next (r ∷ rows) le (p, h) =
      let rest = open_count-new next rows le h in ground arith

  pub open_count-Member :
      (old : RefreshToken) (rows : List RefreshToken)
      → Member old rows
      → is_open family old ≡ true
      → 1 ≤ open_count family rows
  open_count-Member old [] m h = elim m [ ]
  open_count-Member old (r ∷ rows) here h = rw h (omega arith)
  open_count-Member old (r ∷ rows) (there m) h =
      let rest = open_count-Member old rows m h in
      elim (Bool-cases (is_open family r)) [
        | inl was ↦ rw was (omega (arith, rest))
        | inr was ↦ rw was rest
      ]

  pub revoke_row-open :
      (where_expr : RefreshToken → Bool) (now : ℕ) (r : RefreshToken)
      → is_open family (revoke_row where_expr now r) ≡ true
      → is_open family r ≡ true
  unfolding revoke_row revoked_at
  revoke_row-open where_expr now r h = ground arith

  pub rotate_row-open :
      (now : ℕ) (hash successor : String) (grace : ℕ) (r : RefreshToken)
      → is_open family (rotate_row now hash successor grace r) ≡ true
      → is_open family r ≡ true
  unfolding rotate_row rotated
  rotate_row-open now hash successor grace r h = ground arith

  rotate_row-closed :
      (now : ℕ) (successor : String) (grace : ℕ) (r : RefreshToken)
      → is_open family (rotate_row now r.token successor grace r) ≡ false
  unfolding rotate_row rotated
  rotate_row-closed now successor grace r = let same = str_eq_self r.token in ground arith

  pub open_count-rotate :
      (now : ℕ) (successor : String) (grace : ℕ) (old : RefreshToken) (rows : List RefreshToken)
      → Member old rows
      → is_open family old ≡ true
      → suc (open_count family (map (rotate_row now old.token successor grace) rows))
        ≤ open_count family rows
  open_count-rotate now successor grace old [] m h = elim m [ ]
  open_count-rotate now successor grace old (r ∷ rows) here h =
      let rest =
        open_count-map (rotate_row now r.token successor grace) rows
          (rotate_row-open now r.token successor grace) in
      rw (h, rotate_row-closed now successor grace r) (omega (arith, rest))
  open_count-rotate now successor grace old (r ∷ rows) (there m) h =
      let rest = open_count-rotate now successor grace old rows m h in
      elim (Bool-cases (is_open family (rotate_row now old.token successor grace r))) [
        | inl still ↦
            rw (still, rotate_row-open now old.token successor grace r still) (omega (arith, rest))
        | inr closed ↦ rw closed (elim (Bool-cases (is_open family r)) [
          | inl was ↦ rw was (omega (arith, rest))
          | inr was ↦ rw was rest
        ])
      ]
