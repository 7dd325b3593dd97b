-- ===== src/SdoObserver/FrameFields.antt =====
-- internal/sdoobserver/observer.go: how the fields of an object's or a segment's frame are read.
use otelcol_receiver_canopen.Prelude.{
  ℕ, ◌+◌, ◌-◌, ◌/◌, ◌%◌, ◌≤◌, ◌≡◌, refl, sym, ap, ◌∙◌, bit_and, Bool, true, false, not, List, [],
  ◌∷◌, ◌++◌, arith, length, length-append, take, take-append, if◌then◌else◌, ◌==◌, nat_eq,
}
use otelcol_receiver_canopen.Prelude.Bits.{
  bit_and_1, bit_and_7, bit_and_16, bit_and_224, bit_or_high,
}
use otelcol_receiver_canopen.SdoObserver.Types.{Transfer, is_set, cut, object_index, complete}
use otelcol_receiver_canopen.SdoObserver.Observe.{
  Observer, silent, emitted, forget, store, bool_eq, segment_data, apply_segment,
}
use otelcol_receiver_canopen.SdoObserver.Sender.{
  Object, object_frame, Segment, IsSegment, segment_command, segment_frame,
}

pub object_index-object_frame :
    (command : ℕ) (x : Object) (tail : List ℕ)
    → object_index (object_frame command x tail) ≡ x.index
unfolding object_index
object_index-object_frame command x tail =
    bit_or_high 8 (x.index % 256) (x.index / 256) (omega arith) ∙ omega arith

-- The fields of a segment's command byte.
module _ (toggle last : Bool) (unused : ℕ) (h : unused ≤ 7) where
  is_last : is_set (segment_command toggle unused last) 0x01 ≡ last
  is_last = ground (arith, bit_and_1 (segment_command toggle unused last))

  is_toggled : is_set (segment_command toggle unused last) 0x10 ≡ toggle
  is_toggled = ground (arith, bit_and_16 (segment_command toggle unused last))

  unused_bytes : bit_and (segment_command toggle unused last / 2) 0x07 ≡ unused
  unused_bytes = ground (arith, bit_and_7 (segment_command toggle unused last / 2))

  pub is_segment_command : bit_and (segment_command toggle unused last) 0xE0 ≡ 0
  is_segment_command = ground (arith, bit_and_224 (segment_command toggle unused last))

cut-append :
    (chunk pad : List ℕ) (c : ℕ)
    → length chunk + length pad ≡ 7
    → cut (c ∷ (chunk ++ pad)) 1 (length pad) ≡ chunk
cut-append chunk pad c h =
    let n : 8 - length pad - 1 ≡ length chunk = omega arith in
    ap (λ (k : ℕ). take k (chunk ++ pad)) n ∙ take-append chunk pad

pub pad-le : (s : Segment) → IsSegment s → length s.pad ≤ 7
pad-le s h = omega arith

segment_data-segment_frame :
    (toggle last : Bool) (s : Segment)
    → IsSegment s
    → (last ≡ false → s.pad ≡ [])
    → segment_data (segment_command toggle (length s.pad) last) (segment_frame toggle last s)
      ≡ s.chunk
unfolding segment_data
segment_data-segment_frame toggle true s h full =
    rw
      (
        is_last toggle true (length s.pad) (pad-le s h),
        unused_bytes toggle true (length s.pad) (pad-le s h),
      )
      (cut-append s.chunk s.pad (segment_command toggle (length s.pad) true) h)
segment_data-segment_frame toggle false s h full =
    let none_unused : 0 ≡ length s.pad = sym (ap length (full refl)) in
    rw (is_last toggle false (length s.pad) (pad-le s h)) (
      ap (λ (k : ℕ). take (8 - k - 1) (s.chunk ++ s.pad)) none_unused
      ∙ cut-append s.chunk s.pad (segment_command toggle (length s.pad) false) h)

bool_eq_self : (b : Bool) → bool_eq b b ≡ true
bool_eq_self true = refl
bool_eq_self false = refl

-- A segment with the expected toggle bit is joined to the transfer.
pub apply_segment-segment_frame :
    (key : ℕ) (last : Bool) (s : Segment) (t : Transfer) (o : Observer)
    → IsSegment s
    → (last ≡ false → s.pad ≡ [])
    → apply_segment key
        (segment_command t.toggle (length s.pad) last)
        (segment_frame t.toggle last s)
        t
        o
      ≡ (if last then (emitted (complete t (t.payload ++ s.chunk)), forget key o) else (
        silent,
        store key (record t { payload = t.payload ++ s.chunk; toggle = not t.toggle }) o,
      ))
unfolding apply_segment
apply_segment-segment_frame key last s t o h full =
    rw
      (
        segment_data-segment_frame t.toggle last s h full,
        is_last t.toggle last (length s.pad) (pad-le s h),
        is_toggled t.toggle last (length s.pad) (pad-le s h),
        bool_eq_self t.toggle,
      )
      refl

pub length-segment_frame :
    (toggle last : Bool) (s : Segment) → IsSegment s → length (segment_frame toggle last s) ≡ 8
length-segment_frame toggle last s h = omega (arith, length-append s.chunk s.pad)

-- Nothing but the segment rule looks at a segment's command.
pub segment_command-ne :
    (toggle last : Bool) (unused : ℕ)
    → unused ≤ 7
    → ((segment_command toggle unused last == 0x40) ≡ false)
      × ((segment_command toggle unused last == 0x60) ≡ false)
      × ((segment_command toggle unused last == 0x80) ≡ false)
segment_command-ne true true unused h = ground arith
segment_command-ne true false unused h = ground arith
segment_command-ne false true unused h = ground arith
segment_command-ne false false unused h = ground arith
