-- ===== src/Task/Dumps.antt =====
-- `replay` of src/actions/replay.c reads back what `dump` of src/actions/dump.c wrote.
use mathlib.Core.List.{append_assoc}
use libinject.Base.{
  ℕ, ◌<◌, ◌≤◌, ◌^◌, ◌%◌, Bool, true, false, [], ◌∷◌, ◌++◌, ◌≡◌, ◌≢◌, eq_ℤ, eq_ℤ_iff, ◌||◌, refl,
  sym, subst, ap, ◌∙◌, arith, length, take, drop, Text, ℤ, pos, minus_one, to_unsigned, to_int,
  u32_mod, u64_mod, ltb, ◌==◌, ==_iff,
}
use libinject.Format.Bytes.{length-le_bytes, of_le_bytes-le_bytes, byte_range}
use libinject.Format.{le_bytes, of_le_bytes}
use libinject.Rule.{Os}
use libinject.Socket.{SocketInfo, direction_bits, proto_bits, reading}
use libinject.Task.Files.{
  prepare_buffer, dump_record, success_of, error_bytes, data_bytes, read_field, replay_record,
  read_direction, read_proto, read_local_port, read_addr, read_remote_port, read_success,
  replay_success, replay_data, replay_end, signed_byte, with_world,
}
use libinject.Task.{
  user, Machine, Syscall, ActionCallData, bytes_at, read_buffer, read_buffer_length,
}

take-length-append : (xs ys : Text) → take (length xs) (xs ++ ys) ≡ xs
take-length-append [] ys = refl
take-length-append (x ∷ xs) ys = ap (◌∷◌ x) (take-length-append xs ys)

drop-length-append : (xs ys : Text) → drop (length xs) (xs ++ ys) ≡ ys
drop-length-append [] ys = refl
drop-length-append (x ∷ xs) ys = drop-length-append xs ys

to_int-short : (n : ℕ) → n < 2 ^ 31 → to_int n ≡ pos n
to_int-short n h = ground arith

number-back : (count n : ℕ) → n < byte_range count → of_le_bytes (le_bytes count n) ≡ n
number-back count n h = of_le_bytes-le_bytes count n h

four_bytes : (n : ℕ) → n < 2 ^ 31 → n < byte_range 4
unfolding byte_range
four_bytes n h = omega arith

one_byte : 1 < byte_range 1
unfolding byte_range
one_byte = omega arith

-- The data of a call, as far as they reach.
abbrev pub dumped : ActionCallData → Text
dumped c = take (read_buffer_length c) (bytes_at c (read_buffer c))

data_bytes-dumped :
    (c : ActionCallData)
    → c.direction ≡ reading
    → eq_ℤ c.result minus_one ≡ false
    → read_buffer_length c < 2 ^ 31
    → data_bytes c ≡ le_bytes 4 (read_buffer_length c) ++ dumped c
data_bytes-dumped c d ok short =
    let count : to_int (read_buffer_length c) ≡ pos (read_buffer_length c) =
      to_int-short (read_buffer_length c) short in
    let same : read_buffer_length c % u64_mod ≡ read_buffer_length c = omega arith in
    rw (d, ok, count, same) refl

-- A file that `stream` says what is left of: what `fread` documents.
pub record IsStream {W : Type 0} (os : Os W) (file : ℕ) (stream : W → Text) : Type 0 where
  pub bytes : (n : ℕ) (w : W) → (os.read_file file n w).0 ≡ take n (stream w)
  pub rest : (n : ℕ) (w : W) → stream (os.read_file file n w).1 ≡ drop n (stream w)

module _ {W : Type 0} (os : Os W) (callback : Syscall W) (file : ℕ) (stream : W → Text)
    (s : IsStream os file stream) where
  -- A field that stands at the front of the file.
  read_field-front :
      (m : Machine W) (count : ℕ) (front back : Text)
      → length front ≡ count
      → stream m.world ≡ front ++ back
      → (w : W) × (stream w ≡ back)
        × ((next : ℕ → Machine W → Bool × Machine W)
            → read_field os callback file count m next
              ≡ next (of_le_bytes front) (with_world os callback m w))
  read_field-front m count front back h e =
      let taken : take count (front ++ back) ≡ front = rw (sym h) (take-length-append front back) in
      let left : drop count (front ++ back) ≡ back = rw (sym h) (drop-length-append front back) in
      let got = s.bytes count m.world ∙ ap (take count) e ∙ taken in
      let whole : (length front == count) ≡ true = (==_iff (length front) count).1 h in
      (
        (os.read_file file count m.world).1,
        s.rest count m.world ∙ ap (drop count) e ∙ left,
        λ next. rw (got, whole) refl,
      )

  -- To prove `Q` of a run that reads a number first, prove it of what follows.
  read_field-then :
      (Q : Bool × Machine W → Type 0) (m : Machine W) (count n : ℕ) (back : Text)
      (next : ℕ → Machine W → Bool × Machine W)
      → stream m.world ≡ le_bytes count n ++ back
      → ((w : W)
          → stream w ≡ back
          → Q (next (of_le_bytes (le_bytes count n)) (with_world os callback m w)))
      → Q (read_field os callback file count m next)
  read_field-then Q m count n back next e go =
      let (w, f, g) =
        read_field-front m count (le_bytes count n) back (length-le_bytes count n) e in
      subst Q (sym (g next)) (go w f)

  -- A run that goes on behind the field `success`.
  abbrev HeadRead : Machine W → ℤ → ActionCallData → Text → Bool × Machine W → Type 0
  HeadRead m errno c back x =
      (w : W) × (stream w ≡ error_bytes errno (success_of c) ++ (data_bytes c ++ back))
      × (x
          ≡ replay_success os callback file (of_le_bytes (le_bytes 1 (direction_bits c.direction)))
              (signed_byte (of_le_bytes (le_bytes 1 (to_unsigned 256 (success_of c)))))
              (with_world os callback m w))

  -- The fields up to `success`, whatever the socket was.
  replay_record-head :
      (m : Machine W) (timer : ℕ) (errno : ℤ) (si : SocketInfo) (c : ActionCallData) (back : Text)
      → stream m.world ≡ dump_record timer errno si c ++ back
      → HeadRead m errno c back (replay_record os callback file m)
  unfolding dump_record replay_record
  replay_record-head m timer errno si c back e =
      let at = λ (w : W). with_world os callback m w in
      let Q : Bool × Machine W → Type 0 = HeadRead m errno c back in
      let fields : stream m.world
          ≡ le_bytes 8 timer
            ++ (le_bytes 1 (direction_bits c.direction)
                ++ (le_bytes 1 (proto_bits si.proto)
                    ++ (le_bytes 2 (to_unsigned 0x1_0000 si.local.port)
                        ++ (le_bytes 4 si.remote.addr
                            ++ (le_bytes 2 (to_unsigned 0x1_0000 si.remote.port)
                                ++ (le_bytes 1 (to_unsigned 256 (success_of c))
                                    ++ (error_bytes errno (success_of c)
                                        ++ (data_bytes c ++ back)))))))) =
        e ∙ simp append_assoc in
      let dir = of_le_bytes (le_bytes 1 (direction_bits c.direction)) in
      read_field-then Q m 8 timer _ (λ _ m'. read_direction os callback file m') fields
        (λ w₁ e₁.
          read_field-then Q (at w₁) 1 (direction_bits c.direction) _
            (λ d m'. read_proto os callback file d m') e₁
            (λ w₂ e₂.
              read_field-then Q (at w₂) 1 (proto_bits si.proto) _
                (λ _ m'. read_local_port os callback file dir m') e₂
                (λ w₃ e₃.
                  read_field-then Q (at w₃) 2 (to_unsigned 0x1_0000 si.local.port) _
                    (λ _ m'. read_addr os callback file dir m') e₃
                    (λ w₄ e₄.
                      read_field-then Q (at w₄) 4 si.remote.addr _
                        (λ _ m'. read_remote_port os callback file dir m') e₄
                        (λ w₅ e₅.
                          read_field-then Q (at w₅) 2 (to_unsigned 0x1_0000 si.remote.port) _
                            (λ _ m'. read_success os callback file dir m') e₅
                            (λ w₆ e₆.
                              read_field-then Q (at w₆) 1 (to_unsigned 256 (success_of c)) _
                                (λ n m'. replay_success os callback file dir (signed_byte n) m') e₆
                                (λ w₇ e₇. (w₇, e₇, refl))))))))

  -- A read that was answered from the file: `body` stands in the user's buffer.
  abbrev pub Replayed : Machine W → Text → Text → Bool × Machine W → Type 0
  Replayed m body back x =
      (m' : Machine W) × (x ≡ (true, m'))
      × (m'.call.result ≡ pos (length body))
      × (m'.call.orig_len ≡ length body)
      × (m'.call.aborted ≡ true)
      × (m'.call.user_memory ≡ body ++ drop (length body) m.call.user_memory)
      × (stream m'.world ≡ back)

  replay_data-Replayed :
      (m : Machine W) (body back : Text)
      → m.call.direction ≡ reading
      → m.call.buf ≡ user 0
      → length body < 2 ^ 31
      → length body ≤ m.call.len
      → stream m.world ≡ body ++ back
      → Replayed m body back (replay_data os callback file 1 (pos 1) (pos (length body)) m)
  unfolding replay_data replay_end prepare_buffer
  replay_data-Replayed m body back d b short fits e =
      let count : length body % u64_mod ≡ length body = omega arith in
      let count' : length body % u32_mod ≡ length body = omega arith in
      let got =
        s.bytes (length body) m.world ∙ ap (take (length body)) e ∙ take-length-append body back in
      let left =
        s.rest (length body) m.world ∙ ap (drop (length body)) e ∙ drop-length-append body back in
      let enough : ltb m.call.len (length body) ≡ false = ground arith in
      let whole : (length body == length body) ≡ true =
        (==_iff (length body) (length body)).1 refl in
      rw (b, count, count', enough, got, whole, d) (_, refl, refl, refl, refl, refl, left)

  replay_success-Replayed :
      (m : Machine W) (body back : Text)
      → m.call.direction ≡ reading
      → m.call.buf ≡ user 0
      → length body < 2 ^ 31
      → length body ≤ m.call.len
      → stream m.world ≡ le_bytes 4 (length body) ++ (body ++ back)
      → Replayed m body back (replay_success os callback file 1 (pos 1) m)
  replay_success-Replayed m body back d b short fits e =
      read_field-then (Replayed m body back) m 4 (length body) (body ++ back)
        (λ n m'. replay_data os callback file 1 (pos 1) (to_int n) m') e
        (λ w f.
          rw
            (
              number-back 4 (length body) (four_bytes (length body) short),
              to_int-short (length body) short,
            )
            (replay_data-Replayed (with_world os callback m w) body back d b short fits f))

  -- `dump` of a read that was done or answered and did not fail, at the place where the file stands:
  -- where the dumped buffer is whole, its length is below 2^31 and the buffer of the replayed read
  -- has room for it, `replay` of a read takes exactly the record off the file, answers with the
  -- dumped length, and leaves the dumped bytes at the front of the user's buffer.
  pub replay_record-dump_record :
      (m : Machine W) (timer : ℕ) (errno : ℤ) (si : SocketInfo) (c : ActionCallData) (back : Text)
      → c.direction ≡ reading
      → c.is_done || c.aborted ≡ true
      → c.result ≢ minus_one
      → length (dumped c) ≡ read_buffer_length c
      → read_buffer_length c < 2 ^ 31
      → read_buffer_length c ≤ m.call.len
      → m.call.direction ≡ reading
      → m.call.buf ≡ user 0
      → stream m.world ≡ dump_record timer errno si c ++ back
      → Replayed m (dumped c) back (replay_record os callback file m)
  replay_record-dump_record m timer errno si c back d over good whole short fits md mb e =
      let ok : eq_ℤ c.result minus_one ≡ false = ground (arith, eq_ℤ_iff c.result minus_one) in
      let success : success_of c ≡ pos 1 = rw (over, ok) refl in
      let data_is = data_bytes-dumped c d ok short in
      let (w, f, g) = replay_record-head m timer errno si c back e in
      let content : stream w ≡ le_bytes 4 (length (dumped c)) ++ (dumped c ++ back) =
        f ∙ rw (success, data_is, whole) (simp append_assoc) in
      let short' : length (dumped c) < 2 ^ 31 = omega arith in
      let fits' : length (dumped c) ≤ m.call.len = omega arith in
      subst (Replayed m (dumped c) back) (sym g) (
        rw (success, d, number-back 1 1 one_byte)
          (replay_success-Replayed (with_world os callback m w) (dumped c) back md mb short' fits'
            content))
