-- ===== src/Messages/Factory/Framed.antt =====
-- The preview of a buffer that begins with a message, or with the beginning of one.
use bxcommon.Buffers.Input.{InputBuffer, get_item}
use bxcommon.Buffers.Input.Contents.{contents, IsCounted}
use bxcommon.Buffers.Input.Methods.{get_slice_lem}
use bxcommon.Messages.Message.{unpack}
use bxcommon.Messages.Factory.{MessageFactory, MessagePreview, get_message_header_preview}
use bxcommon.Prelude.Bytes.{Bytes}
use bxcommon.Prelude.Int.{pos}
use bxcommon.Prelude.Result.{ok}
use bxcommon.Prelude.{
  ℕ, ◌+◌, ◌≤◌, ◌<◌, ◌≡◌, sym, ap, ◌∙◌, false, none, some, leb, length, take, arith,
}

-- The preview of a byte string.
abbrev pub preview_of : MessageFactory → Bytes → Bytes × ℕ → MessagePreview
preview_of factory all (command, payload_length) = record {
  is_full_message = leb (payload_length + factory.base_message_type.header_length) (length all);
  command = some command;
  payload_length = some payload_length;
}

-- With a header in the buffer that unpacks, the preview has its type and length, and the message is
-- full where the buffer holds header and payload. The contents stay.
pub preview_header :
    (factory : MessageFactory) (b : InputBuffer) (command : Bytes) (n : ℕ)
    → IsCounted b
    → 0 < factory.base_message_type.header_length
    → factory.base_message_type.header_length ≤ length (contents b)
    → unpack factory.base_message_type (take factory.base_message_type.header_length (contents b))
      ≡ ok (command, n)
    → (b' : InputBuffer) × (get_message_header_preview factory b
        ≡ ok (preview_of factory (contents b) (command, n), b'))
      × (contents b' ≡ contents b)
      × IsCounted b'
unfolding get_message_header_preview get_item
preview_header factory b command n valid some_header room e =
    let h = factory.base_message_type.header_length in
    let (p, b', run, front, same, len) =
      get_slice_lem 0 h b valid (omega arith) (omega arith) room in
    let counted : IsCounted b' = len ∙ valid ∙ ap (λ xs. pos (length xs)) (sym same) in
    let front_unpacked : unpack factory.base_message_type p.bytes ≡ ok (command, n) =
      ap (unpack factory.base_message_type) front ∙ e in
    (b', ground (arith, valid, run, front_unpacked, counted, ap length same), same, counted)

-- With no whole header there is no message yet.
pub preview_short :
    (factory : MessageFactory) (b : InputBuffer)
    → IsCounted b
    → length (contents b) < factory.base_message_type.header_length
    → get_message_header_preview factory b
      ≡ ok (record { is_full_message = false; command = none; payload_length = none }, b)
unfolding get_message_header_preview
preview_short factory b valid h = ground (arith, valid)
