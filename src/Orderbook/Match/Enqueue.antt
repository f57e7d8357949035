-- ===== src/Orderbook/Match/Enqueue.antt =====
-- An order that rests at a price its side's map has: it joins the end of the level's list.
use mathlib.Core.Path.{subst}
use distributed_orderbook.Prelude.{
  ℕ, ◌+◌, ◌<◌, ◌≡◌, ◌≢◌, refl, sym, ap, ap₂, ◌∙◌, Bool, false, Option, some, List, [], ◌∷◌, ◌++◌,
  arith, ◌==◌, ==→eq, inl, inr, Bool-cases, ltb, ltb→lt, if◌then◌else◌, length,
}
use distributed_orderbook.Prelude.Int.{ℤ, pos, ◌+ℤ◌, ◌<ℤ◌, int_laws, +ℤ-zero}
use distributed_orderbook.Prelude.Maps.{find, assign}
use distributed_orderbook.Orderbook.Types.{
  Ptr, null, Limit, Order, new_order, Orderbook, write, Limit-eq,
}
use distributed_orderbook.Orderbook.Command.{done, levels, alloc_order}
use distributed_orderbook.Orderbook.Command.Runs.{
  update_order-done, update_limit-done, load_limit-done,
}
use distributed_orderbook.Orderbook.Methods.{enqueue, rest_order}
use distributed_orderbook.Orderbook.Rep.{
  Cell, last, total, has, node, limit_of, Segment, Level, Queues, Rep, same_level,
}
use distributed_orderbook.Orderbook.Rep.Segments.{Segment-append, last-append}
use distributed_orderbook.Orderbook.Rep.Changes.{
  ne_of_has, has-last, write_self, write_ne, Segment-write,
}
use distributed_orderbook.Orderbook.Rep.Locate.{total-append}
use distributed_orderbook.Orderbook.Rep.Frame.{Rep-entry, same_level→eq}
use distributed_orderbook.Orderbook.Rep.Remove.{Level-unused}
use distributed_orderbook.Orderbook.Rep.Unlink.{
  amend-eq, relink_last, relink_last-other, Segment-last, Segment-relink_last,
}
use distributed_orderbook.Orderbook.Rep.CutOut.{write-write}
use distributed_orderbook.Orderbook.Rep.Enter.{Enters}

-- The memory of a limit has been given out.
limit_below :
    {b : Orderbook} {queues : Queues} (rep : Rep b queues) (l : Ptr) (h : Limit)
    → b.limits l ≡ some h
    → l < b.unused
limit_below {b} rep l h held = elim (Bool-cases (ltb l b.unused)) [
  | inl e ↦ ltb→lt l b.unused e
  | inr e ↦ (let empty = (rep.fresh l (ground arith)).1 in cc (sym held ∙ empty))
]

length-last : (cs : List Cell) (c : Cell) → length (cs ++ c ∷ []) ≡ length cs + 1
length-last [] c = refl
length-last (d ∷ cs) c = omega (arith, length-last cs c)

count-last : (n : ℕ) → pos n +ℤ pos 1 ≡ pos (n + 1)
count-last n = omega int_laws

limit-enter :
    (x : Cell) (xs : List Cell) (c : Cell)
    → record {
      head = x.addr;
      tail = c.addr;
      count = pos (length (x ∷ xs)) +ℤ pos 1;
      total_volume = total (x ∷ xs) +ℤ c.volume;
    }
      ≡ limit_of (x ∷ xs ++ c ∷ [])
limit-enter x xs c =
    Limit-eq refl (sym (last-append null (x ∷ xs) (c ∷ [])))
      (count-last (length (x ∷ xs)) ∙ ap pos (sym (length-last (x ∷ xs) c)))
      (ap (λ v. total (x ∷ xs) +ℤ v) (sym (+ℤ-zero c.volume))
        ∙ sym (total-append (x ∷ xs) (c ∷ [])))

module _ {b : Orderbook} {queues : Queues} (rep : Rep b queues) (side : Bool) (price : ℤ)
    (order_id volume : ℤ) (l : Ptr) (x : Cell) (xs : List Cell)
    (entry : find price (levels side b) ≡ some l) (queued : queues side price ≡ x ∷ xs)
    (positive : pos 0 <ℤ volume) where
  abbrev cell : Cell
  cell = record { addr = b.unused; order_id = order_id; volume = volume }

  level : Level b side price (some l) (x ∷ xs)
  level = subst (Level b side price (some l)) queued (Rep-entry rep side price (some l) entry)

  out : has b.unused (x ∷ xs) ≡ false
  out =
      Level-unused {b = b} rep side price (some l) (x ∷ xs) b.unused level
        (rep.fresh b.unused (omega arith)).0

  abbrev tail : Ptr
  tail = last null (x ∷ xs)

  -- Memory when the new order is made, and when it is linked
  abbrev made : Ptr → Option Order
  made = write b.orders b.unused (some (new_order price volume order_id side))

  abbrev joined : Ptr → Option Order
  joined =
      write (relink_last made (x ∷ xs) b.unused) b.unused (some (node side price l tail cell null))

  joined-Segment : Segment joined side price l null null (x ∷ xs ++ cell ∷ [])
  joined-Segment =
      let front =
        Segment-relink_last made side price l null b.unused (x ∷ xs)
          (Segment-write b.orders side price l b.unused _ null null (x ∷ xs) out level.3) in
      Segment-append joined side price l null null (x ∷ xs) (cell ∷ [])
        (Segment-write _ side price l b.unused _ null b.unused (x ∷ xs) out front)
        (omega (arith, rep.nonnull), refl, positive, write_self _ b.unused _, tt)
        (λ a i. elim (Bool-cases (a == b.unused)) [
          | inl e ↦ cc (sym i ∙ ap (λ p. has p (x ∷ xs)) (==→eq a b.unused e) ∙ out)
          | inr e ↦ rw e refl
        ])

  abbrev started : Orderbook
  started = record b { orders = made; unused = b.unused + 1 }

  abbrev pub entered : Orderbook
  entered = record b {
    orders = joined;
    limits = write b.limits l (some (limit_of (x ∷ xs ++ cell ∷ [])));
    unused = b.unused + 1;
    global_map = assign order_id b.unused b.global_map;
  }

  pub entered-Enters : Enters b queues side price l cell entered
  entered-Enters = record {
    orders = λ a h ne.
        write_ne _ b.unused _ a ne
        ∙ relink_last-other made (x ∷ xs) b.unused a (ap (has a) (sym queued) ∙ h)
        ∙ write_ne b.orders b.unused _ a ne;
    limits = λ a ne. write_ne b.limits l _ a ne;
    entries = own_entry;
    own =
        subst (λ ds. Level entered side price (some l) (ds ++ cell ∷ [])) (sym queued)
          (λ e. cc e, level.1, write_self b.limits l _, joined-Segment);
    ordered = rep.ordered;
    index = refl;
    new = refl;
    unused = omega arith;
    limit_used = omega (arith, limit_below rep l _ level.2);
  }
    where
      own_entry :
          (side' : Bool) (price' : ℤ)
          → find price' (levels side' b)
            ≡ (if same_level side price side' price' then some l else find price' (levels side' b))
      own_entry side' price' = elim (Bool-cases (same_level side price side' price')) [
        | inl e ↦
            let (s, p) = same_level→eq side price side' price' e in
            rw e (ap₂ (λ t q. find q (levels t b)) (sym s) (sym p) ∙ entry)
        | inr e ↦ rw e refl
      ]

  counted : Limit
  counted = record (limit_of (x ∷ xs)) { count = pos (length (x ∷ xs)) +ℤ pos 1 }

  fresh_ne : b.unused ≢ null
  fresh_ne = omega (arith, rep.nonnull)

  tail_ne : b.unused ≢ tail
  tail_ne e = ne_of_has tail b.unused (x ∷ xs) (has-last null x xs) out (sym e)

  abbrev appended : Order
  appended = record (new_order price volume order_id side) { prev = tail }

  enqueue-done :
      enqueue l b.unused volume started ≡ done tt (record entered { global_map = b.global_map })
  unfolding enqueue counted
  enqueue-done =
      let b1 : Orderbook = record started { limits = write b.limits l (some counted) } in
      let (valid, o, last_held) =
        Segment-last made side price l null null x xs
          (Segment-write b.orders side price l b.unused _ null null (x ∷ xs) out level.3) in
      let linked : Ptr → Option Order = write made tail (some (record o { next = b.unused })) in
      let b2 : Orderbook = record b1 { orders = linked } in
      let b3 : Orderbook = record b1 { orders = write linked b.unused (some appended) } in
      let counted' : Limit = record counted {
        tail = b.unused;
        total_volume = total (x ∷ xs) +ℤ volume;
      } in
      let b4 : Orderbook = record b3 { limits = write b1.limits l (some counted') } in
      rw
        (
          update_limit-done started l (limit_of (x ∷ xs)) level.1 level.2
              (λ h. record h { count = h.count +ℤ pos 1 }),
          load_limit-done b1 l counted level.1 (write_self b.limits l _),
          update_order-done b1 tail o valid last_held (λ n. record n { next = b.unused }),
          update_order-done b2 b.unused _ fresh_ne
              (write_ne made tail _ b.unused tail_ne ∙ write_self b.orders b.unused _)
              (λ n. record n { prev = tail }),
          update_limit-done b3 l counted level.1 (write_self b.limits l _)
              (λ h. record h { tail = b.unused; total_volume = h.total_volume +ℤ volume }),
          update_order-done b4 b.unused appended fresh_ne (write_self linked b.unused _)
              (λ n. record n { parentlimit = l }),
        )
        (ap₂ (λ os ls. done tt (record started { orders = os; limits = ls }))
          (write-write linked b.unused _ _
            ∙ ap (λ h. write h b.unused (some (node side price l tail cell null)))
                (sym (amend-eq made tail o _ last_held)))
          (write-write b.limits l _ _
            ∙ ap (λ h. write b.limits l (some h)) (limit-enter x xs cell)))

  pub rest_order-entered : rest_order side price volume order_id b ≡ done tt entered
  unfolding rest_order alloc_order
  rest_order-entered = rw (started_entry, enqueue-done) refl
    where
      started_entry : find price (levels side started) ≡ some l
      started_entry = entry
