-- ===== src/Session/Invariants.antt =====
-- What every abstract step keeps: a session has one token that is not revoked at most, one that
-- has none is never revived, and its owner and its start never change.
use maintmode.Session.Counts.{
  open_count-rotate, rotate_row-open, open_count-filter, revoke_row-open, open_count-new,
  open_count-map, open_count, is_open,
}
use maintmode.Base.{
  ℕ, suc, ◌≤◌, ◌<◌, String, ◌≡◌, refl, inl, inr, Bool, true, false, not, ◌&&◌, ◌||◌, List, ◌∷◌,
  arith, ◌==◌, Bool-cases, All, All-map, All-filter, All-Member, All-weaken,
}
use maintmode.Session.Spec.{
  done, onward, Reach, Succeeds, Step-le, Sessions, Opens, Step, draw, end, forget, sign_in,
  succeed,
}
use maintmode.Entity.Session.{RefreshToken}
use maintmode.Session.Tokens.{has_hash, revoke_row, rotate_row, rotated, revoked_at}

-- Every session was numbered.
abbrev pub IsNumbered : Sessions → Type 0
IsNumbered s = All (λ r. r.family < s.next) s.rows

-- The row is of another session, or of this owner and this start.
abbrev pub belongs : (family user_id started_at : ℕ) → RefreshToken → Bool
belongs family user_id started_at r =
    not (r.family == family) || (r.user_id == user_id && r.session_started_at == started_at)

revoke_row-keeps :
    (P : RefreshToken → Type 0) (where_expr : RefreshToken → Bool) (now : ℕ) (r : RefreshToken)
    → P (revoked_at now r)
    → P r
    → P (revoke_row where_expr now r)
unfolding revoke_row
revoke_row-keeps P where_expr now r p q = elim (Bool-cases (where_expr r)) [
  | inl held ↦ rw held p
  | inr failed ↦ rw failed q
]

rotate_row-keeps :
    (P : RefreshToken → Type 0) (now : ℕ) (hash successor : String) (grace : ℕ) (r : RefreshToken)
    → P (rotated now successor grace r)
    → P r
    → P (rotate_row now hash successor grace r)
unfolding rotate_row
rotate_row-keeps P now hash successor grace r p q =
    elim (Bool-cases (has_hash hash r && not r.revoked)) [
      | inl held ↦ rw held p
      | inr failed ↦ rw failed q
    ]

-- A predicate that reads the identity of a row alone.
module _ (P : ℕ → ℕ → ℕ → Type 0) where
  abbrev About : RefreshToken → Type 0
  About r = P r.family r.user_id r.session_started_at

  About-revoke :
      (where_expr : RefreshToken → Bool) (now : ℕ) (r : RefreshToken)
      → About r
      → About (revoke_row where_expr now r)
  unfolding revoked_at
  About-revoke where_expr now r p = revoke_row-keeps About where_expr now r p p

  About-rotate :
      (now : ℕ) (hash successor : String) (grace : ℕ) (r : RefreshToken)
      → About r
      → About (rotate_row now hash successor grace r)
  unfolding rotated
  About-rotate now hash successor grace r p = rotate_row-keeps About now hash successor grace r p p

  All-Step :
      (s t : Sessions)
      → Step s t
      → ((new : RefreshToken) → Opens new s t → About new)
      → All About s.rows
      → All About t.rows
  All-Step s t (draw e n) h p = rw e p
  All-Step s t (end w now e n) h p = rw e (All-map _ _ _ s.rows (About-revoke w now) p)
  All-Step s t (forget kept e n) h p = rw e (All-filter _ _ kept s.rows (λ r q. q) p)
  All-Step s t (sign_in new o n) h p = rw o.added (h new o, p)
  All-Step s t (succeed old new o n) h p = rw o.replaced (
    rw (o.same_family, o.same_user, o.same_start)
        (All-Member _ _ old s.rows (λ r q. q) o.was_there p),
    All-map _ _ _ s.rows (About-rotate o.now old.token new.token o.grace) p,
  )

pub Step-IsNumbered : {s t : Sessions} → Step s t → s.next ≤ t.next → IsNumbered s → IsNumbered t
Step-IsNumbered {s} {t} x le numbered =
    All-Step (λ family _ _. family < t.next) s t x (λ new o. o.is_drawn)
      (All-weaken s.rows (λ r p. omega (arith, p, le)) numbered)

-- A token of the session is open only if the session's number is its family.
is_open-family : (family : ℕ) (r : RefreshToken) → is_open family r ≡ true → r.family ≡ family
is_open-family family r h = ground arith

is_open-succeeded :
    (family : ℕ) {old new : RefreshToken} {s t : Sessions}
    → Succeeds old new s t
    → is_open family new ≡ true
    → is_open family old ≡ true
is_open-succeeded family {old} {new} o h = ground arith

module _ (family : ℕ) where
  open_count-new_row :
      (new : RefreshToken) (rows : List RefreshToken) (bound : ℕ)
      → (is_open family new ≡ true → suc (open_count family rows) ≤ bound)
      → open_count family rows ≤ bound
      → open_count family (new ∷ rows) ≤ bound
  open_count-new_row new rows bound opened closed = elim (Bool-cases (is_open family new)) [
    | inl is ↦ rw is (opened is)
    | inr not_open ↦ rw not_open closed
  ]

  -- A step leaves at most `bound` open tokens, if a sign-in and a succession do.
  open_count-Step :
      (s t : Sessions) (bound : ℕ)
      → Step s t
      → open_count family s.rows ≤ bound
      → ((new : RefreshToken)
          → Opens new s t
          → new.family ≡ family
          → suc (open_count family s.rows) ≤ bound)
      → open_count family t.rows ≤ bound
  open_count-Step s t bound (draw e n) le opens = rw e le
  open_count-Step s t bound (end w now e n) le opens = rw e (
      omega
        (arith, le, open_count-map family (revoke_row w now) s.rows (revoke_row-open family w now)))
  open_count-Step s t bound (forget kept e n) le opens =
      rw e (omega (arith, le, open_count-filter family kept s.rows))
  open_count-Step s t bound (sign_in new o n) le opens =
      rw o.added
        (open_count-new_row new s.rows bound (λ is. opens new o (is_open-family family new is)) le)
  open_count-Step s t bound (succeed old new o n) le opens =
      let kept =
        open_count-map family (rotate_row o.now old.token new.token o.grace) s.rows
          (rotate_row-open family o.now old.token new.token o.grace) in
      rw o.replaced (
        open_count-new_row new _ bound
          (λ is. omega (
            arith,
            le,
            open_count-rotate family o.now new.token o.grace old s.rows o.was_there
                (is_open-succeeded family o is),
          ))
          (omega (arith, le, kept)))

-- Whatever steps are taken, a session has one open token at most.
pub Reach-at_most_one :
    {s t : Sessions} (family : ℕ)
    → Reach s t
    → IsNumbered s
    → open_count family s.rows ≤ 1
    → IsNumbered t × (open_count family t.rows ≤ 1)
Reach-at_most_one family done numbered le = (numbered, le)
Reach-at_most_one {s} family (onward {t = u} x p) numbered le =
    Reach-at_most_one family p (Step-IsNumbered x (Step-le x) numbered) (
      open_count-Step family s u 1 x le λ new o e.
        omega (arith, open_count-new family s.next s.rows (omega (arith, o.is_new, e)) numbered))

-- A session without one never has one again.
pub Reach-ended :
    {s t : Sessions} (family : ℕ)
    → Reach s t
    → family < s.next
    → open_count family s.rows ≡ 0
    → open_count family t.rows ≡ 0
Reach-ended family done lt ended = ended
Reach-ended {s} family (onward {t = u} x p) lt ended =
    let still =
      open_count-Step family s u 0 x (omega (arith, ended))
        (λ new o e. absurd (omega (arith, o.is_new, e, lt))) in
    Reach-ended family p (omega (arith, lt, Step-le x)) (omega (arith, still))

unequal : (a b : ℕ) → b < a → (a == b) ≡ false
unequal a b lt = ground arith

-- A session keeps its owner and its start.
pub Reach-belongs :
    {s t : Sessions} (family user_id started_at : ℕ)
    → Reach s t
    → family < s.next
    → All (λ r. belongs family user_id started_at r ≡ true) s.rows
    → All (λ r. belongs family user_id started_at r ≡ true) t.rows
Reach-belongs family user_id started_at done lt kept = kept
Reach-belongs {s} family user_id started_at (onward {t = u} x p) lt kept =
    Reach-belongs family user_id started_at p (omega (arith, lt, Step-le x)) (
      All-Step (λ f u' t'. (not (f == family) || (u' == user_id && t' == started_at)) ≡ true) s u x
        (λ new o.
          let apart = unequal new.family family (omega (arith, o.is_new, lt)) in rw apart refl)
        kept)
