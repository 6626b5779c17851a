-- ===== src/Mq/Forge/Segment/Scan.antt =====
-- Scanning a log: every whole batch counts, and a torn one at the end does not.
use mathlib.Core.List.{append_assoc}
use go_common.Common.{
  ℕ, zero, suc, ◌+◌, ◌%◌, ◌^◌, ◌≤◌, ◌<◌, ◌≡◌, refl, sym, ap, ◌∙◌, false, none, List, [], ◌∷◌, ◌++◌,
  ltb, ◌==◌, if◌then◌else◌, length, take, drop, arith, length-append, Bool-cases, inl, inr,
}
use native.Mathlib.Nat.{mod-eq_of_lt}
use go_common.Mq.Forge.Varint.Fields.{drop-append, take-append}
use go_common.Mq.Forge.Batch.{Codec, Result, ok, RecordBatch, decode_batch, batch_size, ◌>>=◌}
use go_common.Mq.Forge.Segment.{end_offset, at_size, at_batch, scan_from, scan_batches}
use go_common.Mq.Forge.Segment.Stored.{
  Stored, Holds, AllHold, log_bytes, Contiguous, Contiguous-le, batch_size-torn,
}

-- Bytes at which a loop over batches stops: none, or a size that is not there.
pub data Stops (c : Codec) : List ℕ → Type 0 where
  at_end : Stops c []
  at_torn : {buf : List ℕ} → batch_size buf ≡ none → Stops c buf

pub torn-Stops :
    (c : Codec) (b : RecordBatch) (bs : List ℕ) (m : ℕ)
    → Holds c b bs
    → m < length bs
    → Stops c (take m bs)
torn-Stops c b bs m h lt = at_torn (batch_size-torn bs m h.field lt)

-- One batch in front of `rest`, for any loop of this form.
pub at_size-Holds {ℓ} :
    {A : Type ℓ} (c : Codec) (b : RecordBatch) (bs rest : List ℕ) (a : A)
    (f : ℕ → RecordBatch → Result A)
    → Holds c b bs
    → at_size
        (bs ++ rest)
        a
        (λ n. at_batch a (f n) (decode_batch c (take n (bs ++ rest))))
        (batch_size (bs ++ rest))
      ≡ f (length bs) b
at_size-Holds c b bs rest a f h =
    let fits : ltb (length (bs ++ rest)) (length bs) ≡ false =
      ground (arith, length-append bs rest) in
    rw (h.sized rest) (rw fits (rw (take-append bs rest) (rw h.decoded refl)))

scan_from-nil :
    (c : Codec) (fuel next : ℕ) (t : List ℕ)
    → Stops c t
    → scan_from c (suc fuel) next t ≡ ok (next, 0)
unfolding scan_from
scan_from-nil c fuel next t at_end = refl
scan_from-nil c fuel next t (at_torn e) = elim (Bool-cases (length t == 0)) [
  | inl z ↦ rw z refl
  | inr z ↦ rw (z, e) refl
]

scan_from-cons :
    (c : Codec) (fuel next : ℕ) (b : RecordBatch) (bs rest : List ℕ)
    → Holds c b bs
    → scan_from c (suc fuel) next (bs ++ rest) ≡ (
        scan_from c fuel (if ltb next (end_offset b) then end_offset b else next) rest
        >>= λ (next', used). ok (next', length bs + used))
unfolding scan_from
scan_from-cons c fuel next b bs rest h =
    let z : (length (bs ++ rest) == 0) ≡ false = ground (arith, length-append bs rest, h.header) in
    rw z (
      at_size-Holds c b bs rest (next, 0)
        (λ n b'.
          scan_from c fuel (if ltb next (end_offset b') then end_offset b' else next)
            (drop n (bs ++ rest))
          >>= λ (next', used). ok (next', n + used))
        h
      ∙ rw (drop-append bs rest) refl)

-- The next offset after the batches of a log.
abbrev pub reached : ℕ → List Stored → ℕ
reached next [] = next
reached next ((b, bs) ∷ es) = reached (if ltb next (end_offset b) then end_offset b else next) es

pub reached-append :
    (next : ℕ) (es fs : List Stored) → reached next (es ++ fs) ≡ reached (reached next es) fs
reached-append next [] fs = refl
reached-append next ((b, bs) ∷ es) fs =
    reached-append (if ltb next (end_offset b) then end_offset b else next) es fs

pub reached-Contiguous :
    (o o' : ℕ) (es : List Stored) → Contiguous o es o' → o' < 2 ^ 64 → reached o es ≡ o'
reached-Contiguous o o' [] k lt = k
reached-Contiguous o o' ((b, bs) ∷ es) k lt =
    let up = Contiguous-le (o + b.record_count) o' es k.2 in
    let end : end_offset b ≡ o + b.record_count =
      ap (λ n. (n + b.record_count) % 2 ^ 64) k.0 ∙ mod-eq_of_lt (omega arith) in
    let later : (if ltb o (end_offset b) then end_offset b else o) ≡ o + b.record_count =
      rw end (ground (arith, k.1)) in
    ap (λ n. reached n es) later ∙ reached-Contiguous (o + b.record_count) o' es k.2 lt

-- From an offset before a log that is not empty, too.
pub reached-Contiguous_before :
    (next o o' : ℕ) (e : Stored) (es : List Stored)
    → next ≤ o
    → Contiguous o (e ∷ es) o'
    → o' < 2 ^ 64
    → reached next (e ∷ es) ≡ o'
reached-Contiguous_before next o o' (b, bs) es le k lt =
    let up = Contiguous-le (o + b.record_count) o' es k.2 in
    let end : end_offset b ≡ o + b.record_count =
      ap (λ n. (n + b.record_count) % 2 ^ 64) k.0 ∙ mod-eq_of_lt (omega arith) in
    let later : (if ltb next (end_offset b) then end_offset b else next) ≡ o + b.record_count =
      rw end (ground (arith, k.1)) in
    ap (λ n. reached n es) later ∙ reached-Contiguous (o + b.record_count) o' es k.2 lt

-- The batches of a log are all consumed.
scan_from-log :
    (c : Codec) (fuel next : ℕ) (es : List Stored) (t : List ℕ)
    → AllHold c es
    → Stops c t
    → length (log_bytes es) < fuel
    → scan_from c fuel next (log_bytes es ++ t) ≡ ok (reached next es, length (log_bytes es))
scan_from-log c zero next es t h st enough = absurd (omega arith)
scan_from-log c (suc fuel) next [] t h st enough = scan_from-nil c fuel next t st
scan_from-log c (suc fuel) next ((b, bs) ∷ es) t h st enough =
    let rest = log_bytes es in
    let len = length-append bs rest in
    let ih =
      scan_from-log c fuel (if ltb next (end_offset b) then end_offset b else next) es t h.1 st
        (omega (arith, len, h.0.header)) in
    ap (scan_from c (suc fuel) next) (append_assoc bs rest t)
    ∙ scan_from-cons c fuel next b bs (rest ++ t) h.0
    ∙ rw ih (ap (λ n. ok (reached next ((b, bs) ∷ es), n)) (sym len))

pub scan_batches-log :
    (c : Codec) (next : ℕ) (es : List Stored) (t : List ℕ)
    → AllHold c es
    → Stops c t
    → scan_batches c next (log_bytes es ++ t) ≡ ok (reached next es, length (log_bytes es))
unfolding scan_batches
scan_batches-log c next es t h st =
    scan_from-log c _ next es t h st (omega (arith, length-append (log_bytes es) t))
