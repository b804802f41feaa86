-- ===== src/Pat/Table/Find.antt =====
-- What the statements that read the table give back.
use cimd_proxy.Prelude.{
  ℕ, ◌≡◌, refl, sym, ap, ◌∙◌, inl, inr, true, false, some, List, [], ◌∷◌, arith, In, Bool-cases,
  any, keep,
}
use cimd_proxy.Pat.Record.{PatRecord, rows}
use cimd_proxy.Pat.Table.{Row, Table, same_bytes, collides, tokens, precedes}
use cimd_proxy.Pat.Table.WellFormed.{Distinct}
use cimd_proxy.Pat.Exchange.{first_row}

pub same_bytes_refl : (a : List ℕ) → same_bytes a a ≡ true
same_bytes_refl [] = refl
same_bytes_refl (x ∷ a) = ground (arith, same_bytes_refl a)

pub same_bytes_sound : (a b : List ℕ) → same_bytes a b ≡ true → a ≡ b
same_bytes_sound [] [] h = refl
same_bytes_sound (x ∷ a) (y ∷ b) h =
    let e : x ≡ y = ground arith in rw (e, same_bytes_sound a b (ground arith))
same_bytes_sound [] (y ∷ b) h = absurd (cc h)
same_bytes_sound (x ∷ a) [] h = absurd (cc h)

not_collides : (a r : Row) (t : Table) → any (collides a) t ≡ false → In r t → collides a r ≡ false
not_collides a r [] h m = absurd m
not_collides a r (x ∷ t) h (inl e) = rw e (ground arith)
not_collides a r (x ∷ t) h (inr m) = not_collides a r t (ground arith) m

pub clash : (a b : Row) → collides a b ≡ false → same_bytes a.token_hash b.token_hash ≡ true → ⊥
unfolding collides
clash a b h same = ground arith

pub apart : (a r : Row) → collides a r ≡ false → a.token.id ≡ r.token.id → ⊥
unfolding collides
apart a r h e = ground arith

-- Rows of one id are one row.
pub one_id :
    (t : Table) (a b : Row) → Distinct t → In a t → In b t → a.token.id ≡ b.token.id → a ≡ b
one_id [] a b d m n e = absurd m
one_id (x ∷ t) a b d (inl p) (inl q) e = p ∙ sym q
one_id (x ∷ t) a b d (inl p) (inr n) e =
    absurd (apart x b (not_collides x b t d.0 n) (ap (λ (r : Row). r.token.id) (sym p) ∙ e))
one_id (x ∷ t) a b d (inr m) (inl q) e =
    absurd (apart x a (not_collides x a t d.0 m) (ap (λ (r : Row). r.token.id) (sym q) ∙ sym e))
one_id (x ∷ t) a b d (inr m) (inr n) e = one_id t a b d.1 m n e

abbrev pub by_hash : List ℕ → Table → List PatRecord
by_hash hash t = tokens (keep (λ (r : Row). same_bytes r.token_hash hash) t)

-- In a table whose hashes are distinct, a row is found by its hash.
pub first_by_hash :
    (t : Table) (r : Row)
    → Distinct t
    → In r t
    → first_row (rows (by_hash r.token_hash t)) ≡ some r.token
first_by_hash [] r d m = absurd m
first_by_hash (x ∷ t) r (d, ds) (inl e) = rw (← e) (rw (same_bytes_refl r.token_hash))
first_by_hash (x ∷ t) r (d, ds) (inr m) = elim (Bool-cases (same_bytes x.token_hash r.token_hash)) [
  | inl same ↦ absurd (clash x r (not_collides x r t d m) same)
  | inr other ↦ rw other (first_by_hash t r ds m)
]

pub precedes_total : (a b : PatRecord) → precedes a b ≡ false → precedes b a ≡ true
unfolding precedes
precedes_total a b h = ground arith
