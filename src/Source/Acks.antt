-- ===== src/Source/Acks.antt =====
-- The ack state of the source (source.rs): what `flush_acks` leaves behind, over any consumer that
-- keeps its last durable ack.
use opendata_contrib.Common.{
  ℕ, ◌≡◌, refl, sym, ◌∙◌, Option, none, some, Result, ok, err, ◌⊎◌, inl, inr, is_ok, true, false,
  String, List, ap, ◌∷◌, [],
}
use opendata_contrib.Source.{
  ConsumerOps, BufferSource, ack_through, flush_acks, flushed, flush_pending,
}

-- What the source relies on: the consumer shows its durable ack, a call that succeeds makes it the
-- sequence of the call, and a call that fails leaves it.
pub record ConsumerLaws {C : Type 0} (ops : ConsumerOps C) : Type 0 where
  pub durable : C → Option ℕ
  pub acked :
      (c : C) (seq : ℕ)
      → is_ok (ops.ack_durably c seq).0 ≡ true
      → durable (ops.ack_durably c seq).1 ≡ some seq
  pub failed :
      (c : C) (seq : ℕ)
      → is_ok (ops.ack_durably c seq).0 ≡ false
      → durable (ops.ack_durably c seq).1 ≡ durable c

module _ {C : Type 0} (ops : ConsumerOps C) (laws : ConsumerLaws ops) where
  -- The last ack is either waiting for a flush or durable.
  unfoldable pub IsHeld : BufferSource C → Type 0
  IsHeld s =
      (s.pending_durable_ack ≡ s.last_acked)
      ⊎ ((s.pending_durable_ack ≡ none) × (laws.durable s.consumer ≡ s.last_acked))

  flushed-durable :
      (s : BufferSource C) (seq : ℕ) (o : Result String (Unit {0})) (c : C)
      → (is_ok o ≡ true → laws.durable c ≡ some seq)
      → s.pending_durable_ack ≡ some seq
      → s.last_acked ≡ some seq
      → IsHeld (flushed ops s seq o c).1
  unfolding IsHeld
  flushed-durable s seq (ok u) c h p l = inr (refl, h refl ∙ sym l)
  flushed-durable s seq (err e) c h p l = inl (sym l)

  flush_pending-IsHeld :
      (s : BufferSource C) (p : Option ℕ)
      → s.pending_durable_ack ≡ p
      → IsHeld s
      → IsHeld (flush_pending ops s p).1
  unfolding IsHeld
  flush_pending-IsHeld s none e h = h
  flush_pending-IsHeld s (some seq) e (inl q) =
      flushed-durable s seq _ _ (laws.acked s.consumer seq) e (sym q ∙ e)
  flush_pending-IsHeld s (some seq) e (inr q) = absurd (none_some (sym q.0 ∙ e))
    where
      none_some : {seq : ℕ} → none ≡ some seq → ⊥
      none_some e = cc

  -- Nothing acked is lost: an ack, and a flush of either outcome, keep the last acked sequence in the
  -- pending ack or in the consumer's durable state.
  pub flush_acks-IsHeld :
      (s : BufferSource C) (seq : ℕ)
      → IsHeld s
      → IsHeld (ack_through s seq) × IsHeld (flush_acks ops s).1
  unfolding IsHeld ack_through flush_acks
  flush_acks-IsHeld s seq h = (inl refl, flush_pending-IsHeld s s.pending_durable_ack refl h)

  flushed-pending :
      (s : BufferSource C) (seq : ℕ) (o : Result String (Unit {0})) (c : C)
      → (is_ok o ≡ true → laws.durable c ≡ some seq)
      → (flushed ops s seq o c).0 ≡ ok tt
      → laws.durable (flushed ops s seq o c).1.consumer ≡ some seq
  flushed-pending s seq (ok u) c h e = h refl
  flushed-pending s seq (err x) c h e = cc

  -- A flush that succeeds makes the pending ack durable.
  pub flush_acks-pending :
      (s : BufferSource C) (seq : ℕ)
      → s.pending_durable_ack ≡ some seq
      → (flush_acks ops s).0 ≡ ok tt
      → laws.durable (flush_acks ops s).1.consumer ≡ some seq
  unfolding flush_acks
  flush_acks-pending s seq p = by_pending s.pending_durable_ack p
    where
      by_pending :
          (o : Option ℕ)
          → o ≡ some seq
          → (flush_pending ops s o).0 ≡ ok tt
          → laws.durable (flush_pending ops s o).1.consumer ≡ some seq
      by_pending none q e = cc
      by_pending (some n) q e = flushed-pending s n _ _ (laws.acked s.consumer n) e ∙ q

  -- The calls on the source: an ack of a sequence, or a flush, whatever comes of it.
  abbrev pub run_acks : BufferSource C → List (Option ℕ) → BufferSource C
  run_acks s [] = s
  run_acks s (some seq ∷ calls) = run_acks (ack_through s seq) calls
  run_acks s (none ∷ calls) = run_acks (flush_acks ops s).1 calls

  -- The last sequence that the calls acked.
  abbrev pub last_of : Option ℕ → List (Option ℕ) → Option ℕ
  last_of last [] = last
  last_of last (some seq ∷ calls) = last_of (some seq) calls
  last_of last (none ∷ calls) = last_of last calls

  flush_keeps : (s : BufferSource C) → (flush_acks ops s).1.last_acked ≡ s.last_acked
  unfolding flush_acks
  flush_keeps s = by_pending s.pending_durable_ack
    where
      by_answer :
          (seq : ℕ) (o : Result String (Unit {0})) (c : C)
          → (flushed ops s seq o c).1.last_acked ≡ s.last_acked
      by_answer seq (ok u) c = refl
      by_answer seq (err x) c = refl

      by_pending : (o : Option ℕ) → (flush_pending ops s o).1.last_acked ≡ s.last_acked
      by_pending none = refl
      by_pending (some seq) = by_answer seq _ _

  -- The last ack is pending, or nothing is and it is durable.
  unfoldable IsArmed : BufferSource C → Type 0
  IsArmed s =
      ((seq : ℕ) × (s.pending_durable_ack ≡ some seq) × (s.last_acked ≡ some seq))
      ⊎ ((s.pending_durable_ack ≡ none) × (laws.durable s.consumer ≡ s.last_acked))

  armed_pending :
      (s : BufferSource C) (seq : ℕ)
      → IsArmed s
      → s.pending_durable_ack ≡ some seq
      → s.last_acked ≡ some seq
  unfolding IsArmed
  armed_pending s seq (inl (n, p, l)) e = cc
  armed_pending s seq (inr (p, d)) e = cc

  armed_none :
      (s : BufferSource C)
      → IsArmed s
      → s.pending_durable_ack ≡ none
      → laws.durable s.consumer ≡ s.last_acked
  unfolding IsArmed
  armed_none s (inl (n, p, l)) e = cc
  armed_none s (inr (p, d)) e = d

  flush_acks-IsArmed : (s : BufferSource C) → IsArmed s → IsArmed (flush_acks ops s).1
  unfolding flush_acks
  flush_acks-IsArmed s h = by_pending s.pending_durable_ack refl
    where
      by_answer :
          (seq : ℕ) (o : Result String (Unit {0})) (c : C)
          → (is_ok o ≡ true → laws.durable c ≡ some seq)
          → s.last_acked ≡ some seq
          → IsArmed (flushed ops s seq o c).1
      by_answer seq (ok u) c d l = unfold IsArmed in inr (refl, d refl ∙ sym l)
      by_answer seq (err x) c d l = unfold IsArmed in inl (seq, refl, l)

      by_pending : (o : Option ℕ) → s.pending_durable_ack ≡ o → IsArmed (flush_pending ops s o).1
      by_pending none e = h
      by_pending (some seq) e =
          by_answer seq _ _ (laws.acked s.consumer seq) (armed_pending s seq h e)

  run_acks-IsArmed :
      (s : BufferSource C) (calls : List (Option ℕ))
      → IsArmed s
      → IsArmed (run_acks s calls) × ((run_acks s calls).last_acked ≡ last_of s.last_acked calls)
  unfolding ack_through
  run_acks-IsArmed s [] h = (h, refl)
  run_acks-IsArmed s (some seq ∷ calls) h =
      run_acks-IsArmed (ack_through s seq) calls (unfold IsArmed in inl (seq, refl, refl))
  run_acks-IsArmed s (none ∷ calls) h =
      let rest = run_acks-IsArmed (flush_acks ops s).1 calls (flush_acks-IsArmed s h) in
      (rest.0, rest.1 ∙ ap (λ o. last_of o calls) (flush_keeps s))

  armed-durable :
      (s : BufferSource C)
      → IsArmed s
      → (flush_acks ops s).0 ≡ ok tt
      → laws.durable (flush_acks ops s).1.consumer ≡ s.last_acked
  unfolding flush_acks
  armed-durable s h = by_pending s.pending_durable_ack refl
    where
      by_pending :
          (o : Option ℕ)
          → s.pending_durable_ack ≡ o
          → (flush_pending ops s o).0 ≡ ok tt
          → laws.durable (flush_pending ops s o).1.consumer ≡ s.last_acked
      by_pending none e k = armed_none s h e
      by_pending (some seq) e k =
          flushed-pending s seq _ _ (laws.acked s.consumer seq) k ∙ sym (armed_pending s seq h e)

  -- A failed flush costs nothing: after any acks and flushes, whatever flushes failed, a flush that
  -- succeeds leaves the last sequence acked durable, or what was durable at the start if none was acked.
  pub flush_acks-durable :
      (s : BufferSource C) (calls : List (Option ℕ))
      → s.pending_durable_ack ≡ none
      → laws.durable s.consumer ≡ s.last_acked
      → (flush_acks ops (run_acks s calls)).0 ≡ ok tt
      → laws.durable (flush_acks ops (run_acks s calls)).1.consumer ≡ last_of s.last_acked calls
  flush_acks-durable s calls p d e =
      let h = run_acks-IsArmed s calls (unfold IsArmed in inr (p, d)) in
      armed-durable (run_acks s calls) h.0 e ∙ h.1
