-- ===== src/Mq/Forge/Segment/Chunks.antt =====
-- The loop over chunks finds what a scan of the whole would, as long as a chunk holds a batch.
use Prim.Native.Nat.{min}
use mathlib.Core.List.{append_assoc, append-nil}
use native.Mathlib.Nat.{add-zero}
use go_common.Common.{
  ℕ, zero, suc, ◌+◌, ◌-◌, ◌≤◌, ◌<◌, ◌≡◌, refl, sym, ap, ap₂, ◌∙◌, false, List, [], ◌∷◌, ◌++◌, leb,
  leb-false, leb→lt, leb→le, length, take, drop, arith, length-append, length-take, length-drop,
  Bool-cases, dec_lt, inl, inr,
}
use go_common.Common.Slices.{take_all}
use go_common.Mq.Forge.Varint.Fields.{drop-append, drop-drop, drop_behind}
use go_common.Mq.Forge.Batch.{Codec, ok, unending}
use go_common.Mq.Forge.Segment.{recover_chunk_size, scan_batches, recover_chunks}
use go_common.Mq.Forge.Segment.Stored.{Stored, AllHold, log_bytes, log_bytes-append}
use go_common.Mq.Forge.Segment.Scan.{reached, reached-append, scan_batches-log}
use go_common.Mq.Forge.Segment.Cuts.{
  Tail, Tail-Stops, Tail-short, take-add, Short, AllSmall, Cut, Cut-at,
}

take-length : (xs ys : List ℕ) (k : ℕ) → xs ≡ take k ys → xs ≡ take (length xs) ys
take-length xs ys k e = elim (dec_lt (length ys) k) [
  | yes h ↦
      let all : xs ≡ ys = e ∙ take_all k ys (omega arith) in
      all ∙ sym (take_all (length xs) ys (omega (arith, ap length all)))
  | no h ↦ e ∙ ap (λ j. take j ys) (omega (arith, ap length e, length-take k ys))
]

-- A carry that is all that is left holds no whole batch.
all_carried :
    (next : ℕ) (es : List Stored) (t carry : List ℕ)
    → Short es carry
    → length carry ≡ length (log_bytes es ++ t)
    → (reached next es ≡ next) × (length (log_bytes es) ≡ 0)
all_carried next [] t carry s e = (refl, refl)
all_carried next ((b, bs) ∷ es) t carry s e =
    absurd (omega (arith, length-append (bs ++ log_bytes es) t, length-append bs (log_bytes es)))

-- The bytes of a round: the carry and what is read behind it.
round_bytes :
    (log carry rest : List ℕ) (position valid_end k : ℕ)
    → drop valid_end log ≡ rest
    → carry ≡ take (length carry) rest
    → position ≡ valid_end + length carry
    → length carry < recover_chunk_size
    → take recover_chunk_size carry ++ take k (drop position log) ≡ take (length carry + k) rest
round_bytes log carry rest position valid_end k from begins here short =
    let behind : drop position log ≡ drop (length carry) rest =
      ap (λ n. drop n log) here
      ∙ drop-drop valid_end (length carry) log
      ∙ ap (drop (length carry)) from in
    ap₂ (λ x y. x ++ take k y) (take_all recover_chunk_size carry (omega arith) ∙ begins) behind
    ∙ sym (take-add (length carry) k rest)

-- Where a round of the loop stands: `carry` is the beginning of what is left behind `valid_end`.
record Round (log carry rest : List ℕ) (size position valid_end : ℕ) : Type 0 where
  from : drop valid_end log ≡ rest
  begins : carry ≡ take (length carry) rest
  here : position ≡ valid_end + length carry
  within : size ≡ valid_end + length rest
  short : length carry < recover_chunk_size

chunk_length :
    (log carry rest : List ℕ) (size position valid_end k : ℕ)
    → Round log carry rest size position valid_end
    → k ≤ size - position
    → length (take k (drop position log)) ≡ k
chunk_length log carry rest size position valid_end k r le = omega (
  arith,
  length-take k (drop position log),
  length-drop position log,
  ap length r.from,
  length-drop valid_end log,
  r.here,
  r.within,
)

next-Round :
    (c : Codec) (es : List Stored) (log carry t : List ℕ) (size position valid_end k : ℕ)
    → Round log carry (log_bytes es ++ t) size position valid_end
    → k ≤ size - position
    → (r : Cut c es t (length carry + k))
    → Round log r.start
        (log_bytes r.second ++ t)
        size
        (position + k)
        (valid_end + length (log_bytes r.first))
next-Round c es log carry t size position valid_end k h le r =
    let l₁ = log_bytes r.first in
    let rest = log_bytes es ++ t in
    let split : rest ≡ l₁ ++ (log_bytes r.second ++ t) =
      ap (λ e. log_bytes e ++ t) r.both
      ∙ ap (λ b. b ++ t) (log_bytes-append r.first r.second)
      ∙ append_assoc l₁ (log_bytes r.second) t in
    let longs = ap length split ∙ length-append l₁ (log_bytes r.second ++ t) in
    let cut = ap length r.bytes ∙ length-append l₁ r.start in
    let taken = length-take (length carry + k) rest in
    let carried = ap length h.begins ∙ length-take (length carry) rest in
    record {
      from = drop_behind log valid_end l₁ (log_bytes r.second ++ t) (h.from ∙ split);
      begins = take-length r.start (log_bytes r.second ++ t) _ r.begins;
      here = omega (arith, h.here, h.within, cut, taken, carried);
      within = omega (arith, h.within, longs);
      short = Tail-short c r.start r.is_tail;
    }

chunks-log :
    (c : Codec) (fuel next : ℕ) (es : List Stored) (log carry t : List ℕ)
    (size position valid_end : ℕ)
    → AllHold c es
    → AllSmall es
    → Tail c t
    → Short es carry
    → Round log carry (log_bytes es ++ t) size position valid_end
    → size - position < fuel
    → recover_chunks c fuel log size position carry valid_end next
      ≡ ok (reached next es, valid_end + length (log_bytes es))
unfolding recover_chunks
chunks-log c zero next es log carry t size position valid_end h s tl sh r enough =
    absurd (omega arith)
chunks-log c (suc fuel) next es log carry t size position valid_end h s tl sh r enough =
    let rest = log_bytes es ++ t in
    let carried = ap length r.begins ∙ length-take (length carry) rest in
    elim (Bool-cases (leb size position)) [
      | inl done ↦
          let last =
            all_carried next es t carry sh
              (omega (arith, leb→le size position done, r.here, r.within, carried)) in
          rw done (ap₂ (λ a n. ok (a, n)) (sym last.0) (omega (arith, last.1)))
      | inr more ↦
          let held_all : take recover_chunk_size carry ≡ carry =
            take_all recover_chunk_size carry (omega (arith, r.short)) in
          let k =
            min (recover_chunk_size - length (take recover_chunk_size carry)) (size - position) in
          let k_pos : 0 < k =
            omega (arith, leb→lt size position more, ap length held_all, r.short) in
          let cut = Cut-at c es t (length carry + k) h s tl in
          let l₁ = log_bytes cut.first in
          let buf : take recover_chunk_size carry ++ take k (drop position log) ≡ l₁ ++ cut.start =
            round_bytes log carry rest position valid_end k r.from r.begins r.here r.short
            ∙ cut.bytes in
          let scan =
            scan_batches-log c next cut.first cut.start cut.hold_first
              (Tail-Stops c cut.start cut.is_tail) in
          let le : k ≤ size - position = omega arith in
          let all : length (log_bytes es) ≡ length l₁ + length (log_bytes cut.second) =
            ap (λ e. length (log_bytes e)) cut.both
            ∙ ap length (log_bytes-append cut.first cut.second)
            ∙ length-append l₁ (log_bytes cut.second) in
          let end : reached (reached next cut.first) cut.second ≡ reached next es =
            sym (reached-append next cut.first cut.second) ∙ ap (reached next) (sym cut.both) in
          let ih =
            chunks-log c fuel (reached next cut.first) cut.second log cut.start t size
              (position + k) (valid_end + length l₁) cut.hold_second cut.small tl cut.is_short
              (next-Round c es log carry t size position valid_end k r le cut) (omega arith) in
          rw more (
            rw buf (
              rw scan (
                rw
                  (
                    drop-append l₁ cut.start,
                    chunk_length log carry rest size position valid_end k r le,
                  )
                  (ih ∙ ap₂ (λ a n. ok (a, n)) end (omega (arith, all))))))
    ]

first-Short : (c : Codec) (es : List Stored) → AllHold c es → Short es []
first-Short c [] h = tt
first-Short c ((b, bs) ∷ es) h = omega (arith, h.0.header)

-- From a place behind which the file holds batches that each fit in a chunk, and perhaps one that is
-- cut off, the loop over chunks ends behind the last whole batch, with the offset that these batches
-- lead to.
pub recover_chunks-log :
    (c : Codec) (next : ℕ) (es : List Stored) (log t : List ℕ) (start fuel : ℕ)
    → AllHold c es
    → AllSmall es
    → Tail c t
    → start ≤ length log
    → drop start log ≡ log_bytes es ++ t
    → length log - start < fuel
    → recover_chunks c fuel log (length log) start [] start next
      ≡ ok (reached next es, start + length (log_bytes es))
recover_chunks-log c next es log t start fuel h s tl le at enough =
    chunks-log c fuel next es log [] t (length log) start start h s tl (first-Short c es h)
      (record {
        from = at;
        begins = refl;
        here = omega arith;
        within = omega (arith, ap length at, length-drop start log);
        short = omega arith;
      })
      enough

-- If a whole chunk is carried over in which no batch is found, the loop never ends, whatever the
-- fuel: it reads no bytes, and so stays where it is.
pub recover_chunks-unending :
    (c : Codec) (fuel : ℕ) (log carry : List ℕ) (size position valid_end next : ℕ)
    → position < size
    → length carry ≡ recover_chunk_size
    → scan_batches c next carry ≡ ok (next, 0)
    → recover_chunks c fuel log size position carry valid_end next ≡ unending
unfolding recover_chunks
recover_chunks-unending c zero log carry size position valid_end next lt full none_found = refl
recover_chunks-unending c (suc fuel) log carry size position valid_end next lt full none_found =
    let held_all : take recover_chunk_size carry ≡ carry =
      take_all recover_chunk_size carry (omega arith) in
    let t : leb size position ≡ false = leb-false size position lt in
    let k : min (recover_chunk_size - length carry) (size - position) ≡ 0 = omega arith in
    let ih =
      recover_chunks-unending c fuel log carry size position valid_end next lt full none_found in
    rw t (
      rw held_all (
        rw k
          (rw (append-nil carry) (rw none_found (rw (add-zero position, add-zero valid_end) ih)))))
