-- ===== src/LobsterReplayAdapter/Grammar.antt =====
-- The lines that `parse_row` accepts.
use mathlib.Core.Path.{subst}
use distributed_orderbook.Prelude.{
  ◌≡◌, refl, ap, ◌∙◌, ◌↔◌, inl, inr, Bool-cases, ◌==◌, ==→eq, Option, none, some, [], ◌∷◌,
}
use distributed_orderbook.Prelude.Int.{ℤ}
use distributed_orderbook.LobsterReplayAdapter.{Row}
use distributed_orderbook.LobsterReplayAdapter.Strto.{Text, strtoll, strtol_int}
use distributed_orderbook.LobsterReplayAdapter.Parser.{Reader, comma, field, ◌>>=◌, parse_row}

-- The line is six conversions, with a comma after each but the last.
pub record Parsed (strtod : Reader) (line : Text) (row : Row) : Type 0 where
  pub after_time : Text
  pub after_type : Text
  pub after_order_id : Text
  pub after_size : Text
  pub after_price : Text
  pub trailing : Text
  pub time : strtod line ≡ some (row.time_ns, b',' ∷ after_time)
  pub type : strtol_int after_time ≡ some (row.type, b',' ∷ after_type)
  pub order_id : strtoll after_type ≡ some (row.order_id, b',' ∷ after_order_id)
  pub size : strtoll after_order_id ≡ some (row.size, b',' ∷ after_size)
  pub price : strtoll after_size ≡ some (row.price, b',' ∷ after_price)
  pub direction : strtol_int after_price ≡ some (row.direction, trailing)

pub field-some :
    (read : Reader) (p s : Text) (v : ℤ) → read p ≡ some (v, b',' ∷ s) → field read p ≡ some (v, s)
unfolding field
field-some read p s v h = rw (field, h) refl

pub some-injective {ℓ} : {A : Type ℓ} {x y : A} → some x ≡ some y → x ≡ y
some-injective {x = x} e = ap (λ o. elim o [ none ↦ x | some a ↦ a ]) e

comma-inv : (v w : ℤ) (s t : Text) → comma v t ≡ some (w, s) → (v ≡ w) × (t ≡ b',' ∷ s)
comma-inv v w s [] e = cc
comma-inv v w s (c ∷ t) e = elim (Bool-cases (c == b',')) [
  | inl h ↦
      let same = some-injective (rw h at e) in
      (
        ap (λ x. x.0) same,
        ap (λ x. x ∷ t) (==→eq c b',' h) ∙ ap (λ (x : ℤ × Text). b',' ∷ x.1) same,
      )
  | inr h ↦ absurd (cc (rw h at e))
]

field-inv :
    (read : Reader) (p s : Text) (v : ℤ) → field read p ≡ some (v, s) → read p ≡ some (v, b',' ∷ s)
unfolding field
field-inv read p s v = go (read p) refl
  where
    go :
        (o : Option (ℤ × Text))
        → read p ≡ o
        → (elim o [ none ↦ none | some (w, t) ↦ comma w t ]) ≡ some (v, s)
        → read p ≡ some (v, b',' ∷ s)
    go none h e = cc
    go (some (w, t)) h e = let (same, cut) = comma-inv w v s t e in h ∙ cc (same, cut)

bind-inv :
    {A B : Type 0} (o : Option A) (f : A → Option B) (b : B)
    → (o >>= f) ≡ some b
    → (a : A) × (o ≡ some a) × (f a ≡ some b)
bind-inv none f b e = cc
bind-inv (some a) f b e = (a, refl, e)

parse_row-Parsed :
    (strtod : Reader) (line : Text) (row : Row)
    → parse_row strtod line ≡ some row
    → Parsed strtod line row
unfolding parse_row
parse_row-Parsed strtod line row e =
    let ((time, s1), e1, k1) = bind-inv (field strtod line) _ row e in
    let ((type, s2), e2, k2) = bind-inv (field strtol_int s1) _ row k1 in
    let ((order_id, s3), e3, k3) = bind-inv (field strtoll s2) _ row k2 in
    let ((size, s4), e4, k4) = bind-inv (field strtoll s3) _ row k3 in
    let ((price, s5), e5, k5) = bind-inv (field strtoll s4) _ row k4 in
    let ((direction, s6), e6, k6) = bind-inv (strtol_int s5) _ row k5 in
    subst (Parsed strtod line) (some-injective k6) record {
      after_time = s1;
      after_type = s2;
      after_order_id = s3;
      after_size = s4;
      after_price = s5;
      trailing = s6;
      time = field-inv strtod line s1 time e1;
      type = field-inv strtol_int s1 s2 type e2;
      order_id = field-inv strtoll s2 s3 order_id e3;
      size = field-inv strtoll s3 s4 size e4;
      price = field-inv strtoll s4 s5 price e5;
      direction = e6;
    }

Parsed-parse_row :
    (strtod : Reader) (line : Text) (row : Row)
    → Parsed strtod line row
    → parse_row strtod line ≡ some row
unfolding parse_row
Parsed-parse_row strtod line row g =
    rw
      (
        parse_row,
        field-some strtod line g.after_time row.time_ns g.time,
        field-some strtol_int g.after_time g.after_type row.type g.type,
        field-some strtoll g.after_type g.after_order_id row.order_id g.order_id,
        field-some strtoll g.after_order_id g.after_size row.size g.size,
        field-some strtoll g.after_size g.after_price row.price g.price,
        g.direction,
      )
      refl

-- `parse_row` gives a row for a line exactly if the line is six conversions with a comma directly after
-- each but the last, and the row is their values; what follows the last does not matter.
pub parse_row_iff :
    (strtod : Reader) (line : Text) (row : Row)
    → (parse_row strtod line ≡ some row) ↔ Parsed strtod line row
parse_row_iff strtod line row = (parse_row-Parsed strtod line row, Parsed-parse_row strtod line row)
