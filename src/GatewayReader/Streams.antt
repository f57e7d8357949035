-- ===== src/GatewayReader/Streams.antt =====
-- The engine, the reader's thread and the consumer of its queue, together.
use mathlib.Core.Path.{subst}
use distributed_orderbook.Prelude.{
  ℕ, ◌+◌, ◌^◌, ◌<◌, ◌≤◌, ◌≡◌, sym, ap, ◌∙◌, Bool, true, false, List, [], ◌∷◌, ◌++◌, append_assoc,
  arith,
}
use distributed_orderbook.RingBuffer.Types.{InboundEvent, OutboundEvent, OutboundRing}
use distributed_orderbook.RingBuffer.Outbox.{new, get, amend, publish, release}
use distributed_orderbook.RingBuffer.Outbound.{
  Unread, unread, sent-Unread, unread-sent, release-Unread, unread-release, ready-some, new-Unread,
}
use distributed_orderbook.Gateway.{Gateway}
use distributed_orderbook.Gateway.Reads.{reading_of}
use distributed_orderbook.MatchingEngine.{Outcome, acknowledge}
use distributed_orderbook.SpscQueue.{SpscQueue, new_queue, try_pop}
use distributed_orderbook.SpscQueue.Refine.{
  Valid, values, Popped, taken, empty, try_pop_refines, new_queue-Valid,
}
use distributed_orderbook.GatewayReader.{Ack, GatewayReader, poll}
use distributed_orderbook.GatewayReader.Rounds.{Polled, idle, kept, dropped, poll-Polled}

-- `written` are the acknowledgements that the engine has written so far and `delivered` those that the
-- consumer has popped.
pub record Stream : Type 0 where
  pub ring : OutboundRing
  pub write_p : ℕ
  pub reader : GatewayReader
  pub stop : Bool
  pub written : List OutboundEvent
  pub delivered : List Ack

-- The slot with an acknowledgement, once it is published
abbrev pub published : InboundEvent → Outcome → ℕ → OutboundRing → OutboundEvent
published e res seq ring = record (acknowledge e res (get seq ring)) { is_ready = true }

-- The engine writes the outcome of an event, whether or not the slot has been read.
abbrev pub engine_write : InboundEvent → Outcome → Stream → Stream
engine_write e res s = record s {
  ring = publish s.write_p (amend s.write_p (acknowledge e res) s.ring);
  write_p = s.write_p + 1;
  written = s.written ++ published e res s.write_p s.ring ∷ [];
}

-- What the engine, the reader and the consumer do next. The reader and the consumer may see old values
-- of one another's pointer. The destructor of the reader sets `stop_`, and the loop starts a round only
-- if it is false.
pub data Step (s : Stream) : Stream → Type 0 where
  wrote : (e : InboundEvent) (res : Outcome) → Step s (engine_write e res s)
  polled :
      (tail : ℕ)
      → s.stop ≡ false
      → tail ≤ s.reader.queue.tail
      → Step s (record s {
        reader = (poll tail s.reader s.ring).0;
        ring = (poll tail s.reader s.ring).1;
      })
  stopped : Step s (record s { stop = true })
  popped :
      (head : ℕ) (out value : Ack) (q' : SpscQueue Ack)
      → head ≤ s.reader.queue.head
      → try_pop head out s.reader.queue ≡ (true, q', value)
      → Step s (record s {
        reader = record (s.reader) { queue = q' };
        delivered = s.delivered ++ value ∷ [];
      })

-- The acknowledgements that are left of a list when `n` of them are dropped
pub data Keeps : List OutboundEvent → List Ack → ℕ → Type 0 where
  keeps_none : Keeps [] [] 0
  keep :
      {es : List OutboundEvent} {acks : List Ack} {n : ℕ} (e : OutboundEvent) (out : Ack)
      → Keeps es acks n
      → Keeps (es ++ e ∷ []) (acks ++ reading_of e out ∷ []) n
  drop :
      {es : List OutboundEvent} {acks : List Ack} {n : ℕ} (e : OutboundEvent)
      → Keeps es acks n
      → Keeps (es ++ e ∷ []) acks (n + 1)

-- Of the acknowledgements that the engine has written, those that the reader has not seen wait in the
-- ring; of the others some are counted as dropped, and the rest has been delivered or waits in the
-- queue.
pub record Accounted (k kq : ℕ) (d : Ack) (s : Stream) : Type 0 where
  pub waits : Unread k s.reader.gateway.outbound_read_p s.write_p s.ring
  pub queue : Valid kq s.reader.queue
  pub seen : List OutboundEvent
  pub split : s.written ≡ seen ++ unread s.reader.gateway.outbound_read_p s.write_p s.ring
  pub keeps : Keeps seen (s.delivered ++ values d s.reader.queue) s.reader.dropped_count

module _ {k kq : ℕ} {d : Ack} {s : Stream} (h : Accounted k kq d s) where
  wrote-Accounted :
      (e : InboundEvent) (res : Outcome)
      → s.write_p < s.reader.gateway.outbound_read_p + s.ring.size
      → Accounted k kq d (engine_write e res s)
  wrote-Accounted e res room = record {
    waits = sent-Unread s.ring h.waits (acknowledge e res) room;
    queue = h.queue;
    seen = h.seen;
    split =
        ap (λ (t : List OutboundEvent). t ++ published e res s.write_p s.ring ∷ []) h.split
        ∙ append_assoc h.seen _ (published e res s.write_p s.ring ∷ [])
        ∙ ap (λ (t : List OutboundEvent). h.seen ++ t)
            (sym (unread-sent s.ring h.waits (acknowledge e res) room));
    keeps = h.keeps;
  }

  abbrev read_p : ℕ
  read_p = s.reader.gateway.outbound_read_p

  -- The reader has taken the acknowledgement at its pointer.
  see-Accounted :
      (r' : GatewayReader)
      → (get read_p s.ring).is_ready ≡ true
      → r'.gateway.outbound_read_p ≡ read_p + 1
      → Valid kq r'.queue
      → Keeps (h.seen ++ get read_p s.ring ∷ []) (s.delivered ++ values d r'.queue) r'.dropped_count
      → Accounted k kq d (record s { reader = r'; ring = release read_p s.ring })
  see-Accounted r' ready moved valid keeps =
      let some_left = ready-some s.ring h.waits ready in
      record {
        waits =
            subst (λ p. Unread k p s.write_p (release read_p s.ring)) (sym moved)
              (release-Unread s.ring h.waits some_left);
        queue = valid;
        seen = h.seen ++ get read_p s.ring ∷ [];
        split =
            h.split
            ∙ ap (λ (t : List OutboundEvent). h.seen ++ t) (unread-release s.ring h.waits some_left)
            ∙ sym (append_assoc h.seen (get read_p s.ring ∷ []) _)
            ∙ ap
                (λ p.
                  (h.seen ++ get read_p s.ring ∷ []) ++ unread p s.write_p (release read_p s.ring))
                (sym moved);
        keeps = keeps;
      }

  Polled-Accounted :
      (tail : ℕ) (next : GatewayReader × OutboundRing)
      → Polled kq d tail s.reader s.ring next
      → Accounted k kq d (record s { reader = next.0; ring = next.1 })
  Polled-Accounted tail next (idle _) = h
  Polled-Accounted tail next (kept r' ready valid joins same moved) =
      see-Accounted r' ready moved valid (
        subst (Keeps (h.seen ++ get read_p s.ring ∷ []) (s.delivered ++ values d r'.queue))
          (sym same)
          (subst (λ acks. Keeps (h.seen ++ get read_p s.ring ∷ []) acks s.reader.dropped_count)
            (append_assoc s.delivered (values d s.reader.queue) _
              ∙ ap (λ (t : List Ack). s.delivered ++ t) (sym joins))
            (keep (get read_p s.ring) s.reader.ack h.keeps)))
  Polled-Accounted tail next (dropped r' ready _ queue more moved) =
      see-Accounted r' ready moved (subst (Valid kq) (sym queue) h.queue) (
        subst (Keeps (h.seen ++ get read_p s.ring ∷ []) (s.delivered ++ values d r'.queue))
          (sym more)
          (subst
            (λ q.
              Keeps (h.seen ++ get read_p s.ring ∷ []) (s.delivered ++ values d q)
                (s.reader.dropped_count + 1))
            (sym queue) (drop (get read_p s.ring) h.keeps)))

  popped-Accounted :
      (head : ℕ) (out : Ack) (value : Ack) (q' : SpscQueue Ack) (pop : Bool × SpscQueue Ack × Ack)
      → Popped kq d head out s.reader.queue pop
      → pop ≡ (true, q', value)
      → Accounted k kq d (record s {
        reader = record (s.reader) { queue = q' };
        delivered = s.delivered ++ value ∷ [];
      })
  popped-Accounted head out value q' pop (taken q v valid front _) e =
      subst
        (λ (x : Bool × SpscQueue Ack × Ack). Accounted k kq d (record s {
          reader = record (s.reader) { queue = x.1 };
          delivered = s.delivered ++ x.2 ∷ [];
        }))
        e
        (record {
          waits = h.waits;
          queue = valid;
          seen = h.seen;
          split = h.split;
          keeps =
              subst (λ acks. Keeps h.seen acks s.reader.dropped_count)
                (ap (λ (t : List Ack). s.delivered ++ t) front
                  ∙ sym (append_assoc s.delivered (v ∷ []) (values d q)))
                h.keeps;
        })
  popped-Accounted head out value q' pop (empty _) e =
      absurd (not_popped (ap (λ (x : Bool × SpscQueue Ack × Ack). x.0) e))
    where
      not_popped : false ≡ true → ⊥
      not_popped f = cc

  Step-Accounted :
      {s' : Stream}
      → Step s s'
      → s'.write_p ≤ s'.reader.gateway.outbound_read_p + 2 ^ k
      → Accounted k kq d s'
  Step-Accounted (wrote e res) near =
      wrote-Accounted e res (omega (arith, near, h.waits.ring.power))
  Step-Accounted (polled tail _ old) _ =
      Polled-Accounted tail _ (poll-Polled kq d tail s.reader s.ring h.queue old)
  Step-Accounted stopped _ = record {
    waits = h.waits;
    queue = h.queue;
    seen = h.seen;
    split = h.split;
    keeps = h.keeps;
  }
  Step-Accounted (popped head out value q' old ran) _ =
      popped-Accounted head out value q' _
        (try_pop_refines kq s.reader.queue h.queue d head out old) ran

-- The runs of the engine, the reader and the consumer from an empty ring of 2 ^ k slots and an empty
-- queue, in which the engine's write pointer is never more than a ring ahead of the reader's
pub data KeepsUp (k kq : ℕ) (d : Ack) : Stream → Type 0 where
  at_start :
      (g : Gateway) (ack : Ack)
      → g.outbound_read_p ≡ 0
      → KeepsUp k kq d (record {
        ring = new (2 ^ k);
        write_p = 0;
        reader = record { gateway = g; queue = new_queue d (2 ^ kq); dropped_count = 0; ack = ack };
        stop = false;
        written = [];
        delivered = [];
      })
  then_step :
      {s : Stream} (s' : Stream)
      → KeepsUp k kq d s
      → Step s s'
      → s'.write_p ≤ s'.reader.gateway.outbound_read_p + 2 ^ k
      → KeepsUp k kq d s'

-- Whatever the order of the engine's writes, the reader's rounds and the consumer's pops, as long as the
-- engine's write pointer stays within one ring of the reader's, which the engine does not look after:
-- each acknowledgement that the engine has written waits in the outbound ring, or was counted as
-- dropped, or was delivered or waits in the queue; none is delivered twice, and the order is that of the
-- engine's writes.
pub KeepsUp-Accounted : {k kq : ℕ} {d : Ack} (s : Stream) → KeepsUp k kq d s → Accounted k kq d s
KeepsUp-Accounted {k} {kq} {d} _ (at_start g ack unread_yet) = record {
  waits = subst (λ p. Unread k p 0 (new (2 ^ k))) (sym unread_yet) (new-Unread k);
  queue = new_queue-Valid kq d;
  seen = [];
  split = ap (λ p. unread p 0 (new (2 ^ k))) (sym unread_yet);
  keeps = keeps_none;
}
KeepsUp-Accounted _ (then_step {s} s' earlier step near) =
    Step-Accounted (KeepsUp-Accounted s earlier) step near
