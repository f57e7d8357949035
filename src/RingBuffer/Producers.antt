-- ===== src/RingBuffer/Producers.antt =====
-- `RingBuffer_inbound::claim` by several producers, one atomic access at a time.
use distributed_orderbook.Prelude.{
  ℕ, ◌+◌, ◌<◌, ◌≤◌, ◌^◌, ◌≡◌, ◌≢◌, ◌⊎◌, refl, sym, ap, ◌∙◌, Bool, true, false, inl, inr, Bool-cases,
  ◌==◌, ==→eq, ==-refl, ne→==, arith, if◌then◌else◌,
}
use distributed_orderbook.RingBuffer.Types.{InboundEvent, InboundRing}
use distributed_orderbook.RingBuffer.Inbox.{new, get, amend, publish, release}

-- Where a producer stands: not in `claim`, with a loaded `target_seq`, with one whose slot was seen
-- empty, or with one that it has claimed and not published.
pub data Phase : Type 0 where
  idle : Phase
  loaded : ℕ → Phase
  cleared : ℕ → Phase
  owns : ℕ → Phase

pub record State : Type 0 where
  pub ring : InboundRing
  pub read : ℕ
  pub phase : ℕ → Phase

abbrev pub set_phase : ℕ → Phase → State → State
set_phase p x s = record s { phase = λ q. if q == p then x else s.phase q }

-- An access by producer `p`, or the consumer's turn. A relaxed load of `write_pointer` may give an old
-- value. The compare and swap may fail without a reason.
pub data Step : State → State → Type 0 where
  load :
      {s : State} (p seq : ℕ)
      → s.phase p ≡ idle
      → seq ≤ s.ring.write_pointer
      → Step s (set_phase p (loaded seq) s)
  spin :
      {s : State} (p seq seq' : ℕ)
      → s.phase p ≡ loaded seq
      → (get seq s.ring).is_ready ≡ true
      → seq' ≤ s.ring.write_pointer
      → Step s (set_phase p (loaded seq') s)
  pass :
      {s : State} (p seq : ℕ)
      → s.phase p ≡ loaded seq
      → (get seq s.ring).is_ready ≡ false
      → Step s (set_phase p (cleared seq) s)
  swap :
      {s : State} (p : ℕ)
      → s.phase p ≡ cleared s.ring.write_pointer
      → Step s (
          set_phase p
            (owns s.ring.write_pointer)
            (record s { ring = record (s.ring) { write_pointer = s.ring.write_pointer + 1 } }))
  retry : {s : State} (p seq : ℕ) → s.phase p ≡ cleared seq → Step s (set_phase p idle s)
  send :
      {s : State} (p seq : ℕ) (f : InboundEvent → InboundEvent)
      → s.phase p ≡ owns seq
      → Step s (set_phase p idle (record s { ring = publish seq (amend seq f s.ring) }))
  take :
      {s : State}
      → (get s.read s.ring).is_ready ≡ true
      → Step s (record s { ring = release s.read s.ring; read = s.read + 1 })

-- The states that a ring of 2 ^ k slots gets to
pub data Reaches (k : ℕ) : State → Type 0 where
  start : Reaches k (record { ring = new (2 ^ k); read = 0; phase = λ _. idle })
  after : {s : State} (s' : State) → Reaches k s → Step s s' → Reaches k s'

-- What producers own is below `write_pointer`, and no two own the same.
pub record Fair (s : State) : Type 0 where
  pub below : (p seq : ℕ) → s.phase p ≡ owns seq → seq < s.ring.write_pointer
  pub apart : (p q seq : ℕ) → s.phase p ≡ owns seq → s.phase q ≡ owns seq → p ≡ q

pub set_phase-cases :
    (p q : ℕ) (x y : Phase) (s : State)
    → (set_phase p x s).phase q ≡ y
    → ((q ≡ p) × (x ≡ y)) ⊎ ((q ≢ p) × (s.phase q ≡ y))
set_phase-cases p q x y s e = elim (Bool-cases (q == p)) [
  | inl same ↦ inl (==→eq q p same, rw same at e)
  | inr other ↦ inr ((λ is. cc (sym other ∙ ap (λ r. r == p) is ∙ ==-refl p)), rw other at e)
]

pub phase_self : (p : ℕ) (x : Phase) (s : State) → (set_phase p x s).phase p ≡ x
phase_self p x s = rw (==-refl p) refl

pub phase_ne : (p q : ℕ) (x : Phase) (s : State) → q ≢ p → (set_phase p x s).phase q ≡ s.phase q
phase_ne p q x s ne = rw (ne→== q p ne) refl

abbrev pub is_owner : Phase → Bool
is_owner idle = false
is_owner (loaded _) = false
is_owner (cleared _) = false
is_owner (owns _) = true

abbrev pub owned : Phase → ℕ
owned idle = 0
owned (loaded _) = 0
owned (cleared _) = 0
owned (owns seq) = seq

module _ (s : State) (fair : Fair s) (p : ℕ) where
  -- A producer gives up what it owns, or owns nothing new.
  Fair-other :
      (x : Phase) (ring : InboundRing) (read : ℕ)
      → is_owner x ≡ false
      → ring.write_pointer ≡ s.ring.write_pointer
      → Fair (set_phase p x (record { ring = ring; read = read; phase = s.phase }))
  Fair-other x ring read inert same = record {
    below = λ q seq e.
        elim (set_phase-cases p q x (owns seq)
          (record { ring = ring; read = read; phase = s.phase }) e) [
            | inl (_, is) ↦ (let wrong = ap is_owner is in cc (sym inert ∙ wrong))
            | inr (_, old) ↦ omega (arith, fair.below q seq old, same)
          ];
    apart = λ q r seq e e'.
        elim (set_phase-cases p q x (owns seq)
          (record { ring = ring; read = read; phase = s.phase }) e) [
            | inl (_, is) ↦ (let wrong = ap is_owner is in cc (sym inert ∙ wrong))
            | inr (_, old) ↦
                elim (set_phase-cases p r x (owns seq)
                  (record { ring = ring; read = read; phase = s.phase }) e') [
                    | inl (_, is) ↦ (let wrong = ap is_owner is in cc (sym inert ∙ wrong))
                    | inr (_, old') ↦ fair.apart q r seq old old'
                  ]
          ];
  }

  -- A producer owns what `write_pointer` was.
  Fair-swap : Fair (
      set_phase p
        (owns s.ring.write_pointer)
        (record s { ring = record (s.ring) { write_pointer = s.ring.write_pointer + 1 } }))
  Fair-swap = record {
    below = λ q seq e. elim (cases q seq e) [
      | inl (_, is) ↦ omega (arith, ap owned is)
      | inr (_, old) ↦ omega (arith, fair.below q seq old)
    ];
    apart = λ q r seq e e'. elim (cases q seq e) [
      | inl (here, is) ↦ elim (cases r seq e') [
        | inl (here', _) ↦ here ∙ sym here'
        | inr (_, old') ↦ absurd (omega (arith, ap owned is, fair.below r seq old'))
      ]
      | inr (_, old) ↦ elim (cases r seq e') [
        | inl (_, is) ↦ absurd (omega (arith, ap owned is, fair.below q seq old))
        | inr (_, old') ↦ fair.apart q r seq old old'
      ]
    ];
  }
    where
      cases :
          (q seq : ℕ)
          → (set_phase p (owns s.ring.write_pointer) (record s {
            ring = record (s.ring) { write_pointer = s.ring.write_pointer + 1 };
          })).phase
              q
            ≡ owns seq
          → ((q ≡ p) × (owns s.ring.write_pointer ≡ owns seq)) ⊎ ((q ≢ p) × (s.phase q ≡ owns seq))
      cases q seq e =
          set_phase-cases p q (owns s.ring.write_pointer) (owns seq)
            (record s { ring = record (s.ring) { write_pointer = s.ring.write_pointer + 1 } }) e

pub Step-Fair : (s s' : State) → Step s s' → Fair s → Fair s'
Step-Fair s _ (load p seq _ _) fair = Fair-other s fair p (loaded seq) s.ring s.read refl refl
Step-Fair s _ (spin p seq seq' _ _ _) fair =
    Fair-other s fair p (loaded seq') s.ring s.read refl refl
Step-Fair s _ (pass p seq _ _) fair = Fair-other s fair p (cleared seq) s.ring s.read refl refl
Step-Fair s _ (swap p _) fair = Fair-swap s fair p
Step-Fair s _ (retry p seq _) fair = Fair-other s fair p idle s.ring s.read refl refl
Step-Fair s _ (send p seq f _) fair =
    Fair-other s fair p idle (publish seq (amend seq f s.ring)) s.read refl refl
Step-Fair s _ (take _) fair = record { below = fair.below; apart = fair.apart }

pub Reaches-Fair : {k : ℕ} (s : State) → Reaches k s → Fair s
Reaches-Fair _ start = record { below = λ p seq e. cc; apart = λ p q seq e e'. cc }
Reaches-Fair _ (after {s} s' earlier step) = Step-Fair s s' step (Reaches-Fair s earlier)

-- Whatever the order of the accesses of the producers and the consumer, two producers never own the
-- same sequence number at once, and what they own is below `write_pointer`.
pub Reaches-apart :
    {k : ℕ} (s : State) (p q a b : ℕ)
    → Reaches k s
    → s.phase p ≡ owns a
    → s.phase q ≡ owns b
    → p ≢ q
    → (a ≢ b) × (a < s.ring.write_pointer) × (b < s.ring.write_pointer)
Reaches-apart s p q a b reached at_a at_b ne =
    let fair = Reaches-Fair s reached in
    ((λ e. ne (fair.apart p q b (at_a ∙ ap owns e) at_b)), fair.below p a at_a, fair.below q b at_b)
