-- ===== src/Mq/Forge/Segment/Cuts.antt =====
-- The first bytes of a log: whole batches, and the beginning of the rest.
use Prim.Native.Nat.{min}
use mathlib.Core.List.{append_assoc}
use native.Mathlib.Nat.{zero-add, sub-zero}
use go_common.Common.{
  ℕ, zero, suc, ◌+◌, ◌-◌, ◌≤◌, ◌<◌, ◌≡◌, refl, sym, ap, ap₂, subst, ◌∙◌, List, [], ◌∷◌, ◌++◌,
  length, take, drop, arith, length-append, length-take, dec_lt,
}
use go_common.Common.Slices.{take_all}
use go_common.Mq.Forge.Varint.Fields.{take-append_short, take-append_long, suc_add}
use go_common.Mq.Forge.Batch.{Codec, RecordBatch}
use go_common.Mq.Forge.Segment.{recover_chunk_size}
use go_common.Mq.Forge.Segment.Stored.{Stored, Holds, AllHold, log_bytes}
use go_common.Mq.Forge.Segment.Scan.{Stops, at_end, torn-Stops}

-- What a crash leaves behind the last whole batch: nothing, or a batch that is cut off.
pub data Tail (c : Codec) : List ℕ → Type 0 where
  whole : Tail c []
  torn :
      {t : List ℕ} (b : RecordBatch) (bs : List ℕ) (m : ℕ)
      → Holds c b bs
      → m < length bs
      → length bs ≤ recover_chunk_size
      → t ≡ take m bs
      → Tail c t

pub Tail-Stops : (c : Codec) (t : List ℕ) → Tail c t → Stops c t
Tail-Stops c t whole = at_end
Tail-Stops c t (torn b bs m h lt small e) = subst (Stops c) (sym e) (torn-Stops c b bs m h lt)

pub Tail-short : (c : Codec) (t : List ℕ) → Tail c t → length t < recover_chunk_size
Tail-short c t whole = omega arith
Tail-short c t (torn b bs m h lt small e) = omega (arith, ap length e, length-take m bs)

min-zero : (m : ℕ) → min zero m ≡ zero
min-zero m = omega arith

min-zero_right : (k : ℕ) → min k zero ≡ zero
min-zero_right k = omega arith

suc-min : (k m : ℕ) → suc (min k m) ≡ min (suc k) (suc m)
suc-min k m = omega arith

take-take : (k m : ℕ) (xs : List ℕ) → take k (take m xs) ≡ take (min k m) xs
take-take zero m xs = ap (λ n. take n xs) (sym (min-zero m))
take-take (suc k) zero xs = ap (λ n. take n xs) (sym (min-zero_right (suc k)))
take-take (suc k) (suc m) [] = sym (take_all (min (suc k) (suc m)) [] (omega arith))
take-take (suc k) (suc m) (x ∷ xs) =
    ap (◌∷◌ x) (take-take k m xs) ∙ ap (λ n. take n (x ∷ xs)) (suc-min k m)

Tail-take : (c : Codec) (k : ℕ) (t : List ℕ) → Tail c t → Tail c (take k t)
Tail-take c k t whole = subst (Tail c) (sym (take_all k [] (omega arith))) whole
Tail-take c k t (torn b bs m h lt small e) =
    torn b bs (min k m) h (omega arith) small (ap (take k) e ∙ take-take k m bs)

pub take-add : (n k : ℕ) (xs : List ℕ) → take (n + k) xs ≡ take n xs ++ take k (drop n xs)
take-add zero k xs = ap (λ j. take j xs) (zero-add k)
take-add (suc n) k [] = take_all (suc n + k) [] (omega arith) ∙ sym (take_all k [] (omega arith))
take-add (suc n) k (x ∷ xs) = ap (λ j. take j (x ∷ xs)) (suc_add n k) ∙ ap (◌∷◌ x) (take-add n k xs)

-- The first batch, if there is one, is longer than `t`.
abbrev pub Short : List Stored → List ℕ → Type 0
Short [] t = Unit {0}
Short ((b, bs) ∷ es) t = length t < length bs

abbrev pub AllSmall : List Stored → Type 0
AllSmall [] = Unit {0}
AllSmall ((b, bs) ∷ es) = (length bs ≤ recover_chunk_size) × AllSmall es

-- The first `k` bytes of a log: whole batches, and the beginning of the rest.
pub record Cut (c : Codec) (es : List Stored) (t : List ℕ) (k : ℕ) : Type 0 where
  pub first : List Stored
  pub second : List Stored
  pub start : List ℕ
  pub both : es ≡ first ++ second
  pub hold_first : AllHold c first
  pub hold_second : AllHold c second
  pub small : AllSmall second
  pub is_tail : Tail c start
  pub is_short : Short second start
  pub bytes : take k (log_bytes es ++ t) ≡ log_bytes first ++ start
  pub begins : start ≡ take (k - length (log_bytes first)) (log_bytes second ++ t)

pub Cut-at :
    (c : Codec) (es : List Stored) (t : List ℕ) (k : ℕ)
    → AllHold c es
    → AllSmall es
    → Tail c t
    → Cut c es t k
Cut-at c [] t k h s tl = record {
  first = [];
  second = [];
  start = take k t;
  both = refl;
  hold_first = tt;
  hold_second = tt;
  small = tt;
  is_tail = Tail-take c k t tl;
  is_short = tt;
  bytes = refl;
  begins = ap (λ j. take j t) (sym (sub-zero k));
}
Cut-at c ((b, bs) ∷ es) t k h s tl = elim (dec_lt k (length bs)) [
  | yes lt ↦
      let e =
        ap (take k) (append_assoc bs (log_bytes es) t)
        ∙ take-append_short k bs (log_bytes es ++ t) lt in
      record {
        first = [];
        second = (b, bs) ∷ es;
        start = take k bs;
        both = refl;
        hold_first = tt;
        hold_second = h;
        small = s;
        is_tail = torn b bs k h.0 lt s.0 refl;
        is_short = omega (arith, length-take k bs);
        bytes = e;
        begins = sym e ∙ ap (λ j. take j (log_bytes ((b, bs) ∷ es) ++ t)) (sym (sub-zero k));
      }
  | no ge ↦
      let j = k - length bs in
      let split : k ≡ length bs + j = omega arith in
      let r = Cut-at c es t j h.1 s.1 tl in
      let len = length-append bs (log_bytes r.first) in
      record {
        first = (b, bs) ∷ r.first;
        second = r.second;
        start = r.start;
        both = ap (◌∷◌ (b, bs)) r.both;
        hold_first = (h.0, r.hold_first);
        hold_second = r.hold_second;
        small = r.small;
        is_tail = r.is_tail;
        is_short = r.is_short;
        bytes =
            ap₂ take split (append_assoc bs (log_bytes es) t)
            ∙ take-append_long j bs (log_bytes es ++ t)
            ∙ ap (λ x. bs ++ x) r.bytes
            ∙ sym (append_assoc bs (log_bytes r.first) r.start);
        begins = r.begins ∙ ap (λ x. take x (log_bytes r.second ++ t)) (omega (arith, len));
      }
]
