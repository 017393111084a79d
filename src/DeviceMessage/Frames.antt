-- ===== src/DeviceMessage/Frames.antt =====
-- What the page makes of the messages that a device writes.
use ms_robot.Base.Bits.{bit_or-add}
use ms_robot.Control.Event.Read.{read_int32_be_round_trip}
use ms_robot.Control.Event.{read_int32_be}
use ms_robot.Wire.Bytes.{to_big_endian_bytes}
use ms_robot.DeviceMessage.{
  handle_device_message_buffer, ack_loop, clipboard_length, device_clipboard_ack, device_clipboard,
  slice_to, bit_or, shl32,
}
use ms_robot.Base.Int.{residue, to_int32, ℤ, pos, ◌+ℤ◌}
use ms_robot.Wire.Bytes.Value.{
  from_bytes, IsByte, length-to_big_endian_bytes, All-to_big_endian_bytes,
  from_bytes-to_big_endian_bytes,
}
use ms_robot.Base.{
  ℕ, List, All, Str, ◌<◌, ◌%◌, ◌^◌, ◌∷◌, ◌≡◌, ◌++◌, arith, [], some, if◌then◌else◌, ltb, length,
  none, take, refl, take-append_self, length-append, ◌*◌, ◌+◌, ◌-◌,
}

clipboard_length_lem :
    (a b c d : ℕ) (tail : List ℕ)
    → clipboard_length (0 ∷ a ∷ b ∷ c ∷ d ∷ tail) ≡ read_int32_be (a ∷ b ∷ c ∷ d ∷ [])
unfolding clipboard_length read_int32_be
clipboard_length_lem a b c d tail = refl

handle-clipboard_bytes :
    (decode : List ℕ → Str) (n : ℕ) (bytes tail : List ℕ)
    → length bytes ≡ 4
    → read_int32_be bytes ≡ pos n
    → handle_device_message_buffer decode (0 ∷ (bytes ++ tail))
      ≡ (if ltb (length tail) n then none else some (device_clipboard (decode (take n tail))))
unfolding handle_device_message_buffer slice_to
handle-clipboard_bytes decode n (a ∷ b ∷ c ∷ d ∷ []) tail l e =
    let end_ : pos 5 +ℤ pos n ≡ pos (5 + n) = ground arith in
    let back : 5 + n - 5 ≡ n = omega arith in
    rw (clipboard_length_lem a b c d tail, e, end_, back) (ground arith)
handle-clipboard_bytes decode n _ tail l e = absurd (omega arith)

-- A clipboard message that announces n < 2^31 bytes: with fewer bytes behind it is rejected, else
-- the first n of them are the text.
handle-clipboard :
    (decode : List ℕ → Str) (n : ℕ) (tail : List ℕ)
    → n < 2 ^ 31
    → handle_device_message_buffer decode (0 ∷ (to_big_endian_bytes (pos n) 4 ++ tail))
      ≡ (if ltb (length tail) n then none else some (device_clipboard (decode (take n tail))))
handle-clipboard decode n tail h =
    handle-clipboard_bytes decode n _ tail (length-to_big_endian_bytes (pos n) 4)
      (read_int32_be_round_trip (pos n) (omega arith) (omega arith))

ack_step :
    (n b : ℕ)
    → b < 256
    → to_int32 (bit_or (shl32 (residue (to_int32 n) (2 ^ 32)) 8) b) ≡ to_int32 (n * 256 + b)
ack_step n b h = ground (arith, bit_or-add 8 (n % 2 ^ 24) b h)

-- The sequence is at every step the signed word of the number read so far.
ack_loop_lem :
    (n : ℕ) (bytes : List ℕ)
    → All IsByte bytes
    → ack_loop (to_int32 n) bytes ≡ to_int32 (from_bytes n bytes)
unfolding ack_loop from_bytes
ack_loop_lem n [] h = refl
ack_loop_lem n (b ∷ bytes) h = rw (ack_step n b h.0) (ack_loop_lem (n * 256 + b) bytes h.1)

-- An acknowledgement carries the low 32 bits of the sequence, as a signed word.
handle-ack_clipboard :
    (decode : List ℕ → Str) (v : ℤ) (tail : List ℕ)
    → handle_device_message_buffer decode (1 ∷ (to_big_endian_bytes v 8 ++ tail))
      ≡ some (device_clipboard_ack (to_int32 (residue v (2 ^ 64))))
unfolding handle_device_message_buffer
handle-ack_clipboard decode v tail =
    let l = length-to_big_endian_bytes v 8 in
    rw
      (
        take-append_self (to_big_endian_bytes v 8) tail 8 (omega arith),
        length-append,
        l,
        ack_loop_lem 0 (to_big_endian_bytes v 8) (All-to_big_endian_bytes v 8),
        from_bytes-to_big_endian_bytes v 8,
      )
      (ground arith)
