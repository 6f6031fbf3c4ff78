-- ===== src/Connections/Processing/Frame.antt =====
-- A whole message in front of the buffer: how it is previewed and taken off.
use bxcommon.Buffers.Input.{InputBuffer}
use bxcommon.Buffers.Input.Contents.{contents, IsCounted}
use bxcommon.Buffers.Input.Methods.{remove_bytes_lem}
use bxcommon.Connections.Processing.{
  Connection, ConnectionMessagePreview, Protocol, pre_process_msg, pop_next_bytes, pop_next_message,
}
use bxcommon.Connections.Processing.Spec.{IsSound}
use bxcommon.Messages.Factory.{create_message_from_buffer}
use bxcommon.Messages.Factory.Framed.{preview_header}
use bxcommon.Messages.Message.{unpack}
use bxcommon.Prelude.Bytes.{Bytes, drop-append_self, take-append_self}
use bxcommon.Prelude.Result.{Result, ok}
use bxcommon.Prelude.{
  ℕ, ◌+◌, ◌≡◌, sym, ap, ◌∙◌, Bool, true, Option, some, ◌++◌, length, take, drop, arith,
  length-append, leb,
}

module _ {App : Type 0} (p : Protocol App) where
  -- A byte string begins with a message of this type and payload length.
  pub record Begins (msg_type : Bytes) (n : ℕ) (bytes rest all : Bytes) : Type 0 where
    pub whole : all ≡ bytes ++ rest
    pub size : length bytes ≡ p.header_size + n
    pub unpacked :
        unpack p.message_factory.base_message_type
          (take p.message_factory.base_message_type.header_length all)
        ≡ ok (msg_type, n)

  module _ {verdict : Bool → Option Bytes → ℕ → Option ℕ → Bytes → Result (Unit {0})}
      (sound : IsSound p verdict) where
    abbrev pub full_preview : Bytes → ℕ → ConnectionMessagePreview
    full_preview msg_type n = record {
      is_full_message = true;
      should_process = true;
      command = some msg_type;
      payload_length = some n;
    }

    pub previewed :
        (t : Bytes) (n : ℕ) (bytes rest : Bytes) (c : Connection App)
        → IsCounted c.inputbuf
        → Begins t n bytes rest (contents c.inputbuf)
        → (b : InputBuffer) × (pre_process_msg p c
            ≡ (ok (full_preview t n), record c { inputbuf = b }))
          × (contents b ≡ contents c.inputbuf)
          × IsCounted b
    unfolding pre_process_msg
    previewed t n bytes rest c valid begins =
        let room : length (contents c.inputbuf) ≡ p.header_size + n + length rest =
          omega (arith, ap length begins.whole, length-append bytes rest, begins.size) in
        let (b, run, same, counted) =
          preview_header p.message_factory c.inputbuf t n valid
            (omega (arith, sound.header_sizes, sound.some_header))
            (omega (arith, sound.header_sizes, room)) begins.unpacked in
        let full : leb (n + p.message_factory.base_message_type.header_length)
              (length (contents c.inputbuf))
            ≡ true =
          ground (arith, sound.header_sizes, room) in
        (b, ground (arith, run, full), same, counted)

    pub popped_message :
        (t : Bytes) (n : ℕ) (bytes rest : Bytes) (c : Connection App)
        → IsCounted c.inputbuf
        → Begins t n bytes rest (contents c.inputbuf)
        → (b : InputBuffer) × (pop_next_message p (some n) c
            ≡ (create_message_from_buffer p.message_factory bytes, record c { inputbuf = b }))
          × (contents b ≡ rest)
          × IsCounted b
    unfolding pop_next_message pop_next_bytes
    popped_message t n bytes rest c valid begins =
        let msg_len = p.message_factory.base_message_type.header_length + n in
        let size : length bytes ≡ msg_len = omega (arith, begins.size, sound.header_sizes) in
        let (b, run, removed) =
          remove_bytes_lem msg_len c.inputbuf valid
            (omega (arith, ap length begins.whole, length-append bytes rest, size)) in
        let taken : take msg_len (contents c.inputbuf) ≡ bytes =
          ap (λ k. take k (contents c.inputbuf)) (sym size)
          ∙ ap (take (length bytes)) begins.whole
          ∙ take-append_self bytes rest in
        let left : contents b ≡ rest =
          removed.left
          ∙ ap (λ k. drop k (contents c.inputbuf)) (sym size)
          ∙ ap (drop (length bytes)) begins.whole
          ∙ drop-append_self bytes rest in
        (b, ground (arith, run, taken), left, removed.counted)
