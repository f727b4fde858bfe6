-- ===== src/Recording/Contracts/Identity.antt =====
-- Which identities the two validators admit.
use nodus_vision.Prelude.{
  ℕ, ◌+◌, ◌≤◌, ◌≡◌, ◌≢◌, ◌⊎◌, ◌↔◌, true, [], ◌∷◌, Text, bytes, text_eq, text_eq_iff, length, All,
  arith,
}
use nodus_vision.Recording.Contracts.{
  recording_id_loop, is_recording_id_valid, request_id_loop, is_recording_request_id_valid,
}

abbrev pub LowerAlphanumeric : ℕ → Type 0
LowerAlphanumeric c = ((b'a' ≤ c) × (c ≤ b'z')) ⊎ ((b'0' ≤ c) × (c ≤ b'9'))

abbrev pub IdCharacter : ℕ → Type 0
IdCharacter c = LowerAlphanumeric c ⊎ (c ≡ b'.') ⊎ (c ≡ b'_') ⊎ (c ≡ b'-')

-- [a-z0-9][a-z0-9._-]{0,63}
abbrev pub IsRecordingId : Text → Type 0
IsRecordingId [] = ⊥
IsRecordingId (c ∷ cs) = LowerAlphanumeric c × All IdCharacter cs × (length cs ≤ 63)

tail_iff : (k : ℕ) (cs : Text) → (recording_id_loop (k + 1) cs ≡ true) ↔ All IdCharacter cs
unfolding recording_id_loop
tail_iff k [] = ground arith
tail_iff k (c ∷ cs) = ground (arith, tail_iff (k + 1) cs)

head_dot : (c : ℕ) (cs : Text) → text_eq (c ∷ cs) (bytes ".") ≡ true → c ≡ b'.'
unfolding text_eq bytes
head_dot c cs h = ground arith

head_dots : (c : ℕ) (cs : Text) → text_eq (c ∷ cs) (bytes "..") ≡ true → c ≡ b'.'
unfolding text_eq bytes
head_dots c cs h = ground arith

first_iff :
    (c : ℕ) (cs : Text)
    → (recording_id_loop 0 (c ∷ cs) ≡ true) ↔ (LowerAlphanumeric c × All IdCharacter cs)
unfolding recording_id_loop
first_iff c cs = ground (arith, tail_iff 0 cs)

-- A recording ID is valid exactly when it has 1 to 64 characters, the first a lower-case letter or
-- a digit and each other one of those or a dot, an underscore or a dash.
pub is_recording_id_valid_iff : (id : Text) → (is_recording_id_valid id ≡ true) ↔ IsRecordingId id
unfolding is_recording_id_valid
is_recording_id_valid_iff [] = ground arith
is_recording_id_valid_iff (c ∷ cs) = ground (arith, first_iff c cs, head_dot c cs, head_dots c cs)

abbrev pub NoSeparator : ℕ → Type 0
NoSeparator c = (c ≢ b'/') × (c ≢ 0)

abbrev pub IsPathComponent : Text → Type 0
IsPathComponent id = (id ≢ []) × (id ≢ bytes ".") × (id ≢ bytes "..") × All NoSeparator id

All-mono : (P Q : ℕ → Type 0) → ((c : ℕ) → P c → Q c) → (cs : Text) → All P cs → All Q cs
All-mono P Q f [] h = tt
All-mono P Q f (c ∷ cs) (h, hs) = (f c h, All-mono P Q f cs hs)

IsRecordingId-IsPathComponent : (id : Text) → IsRecordingId id → IsPathComponent id
IsRecordingId-IsPathComponent [] h = absurd h
IsRecordingId-IsPathComponent (c ∷ cs) (first, rest, short) = (
  (λ e. cc e),
  (λ e. omega (arith, first, head_dot c cs ((text_eq_iff _ _).1 e))),
  (λ e. omega (arith, first, head_dots c cs ((text_eq_iff _ _).1 e))),
  (omega arith, All-mono IdCharacter NoSeparator (λ d h. omega arith) cs rest),
)

-- A valid recording ID names a directory entry below the managed directories: it is not empty, not
-- `.` or `..`, and has no slash and no NUL byte.
pub is_recording_id_valid-IsPathComponent :
    (id : Text) → is_recording_id_valid id ≡ true → IsPathComponent id
is_recording_id_valid-IsPathComponent id h =
    IsRecordingId-IsPathComponent id ((is_recording_id_valid_iff id).0 h)

-- [!-~]{1,128} without a slash or a backslash
abbrev pub RequestCharacter : ℕ → Type 0
RequestCharacter c = (0x21 ≤ c) × (c ≤ 0x7E) × (c ≢ b'/') × (c ≢ 0x5C)

request_id_loop_iff : (cs : Text) → (request_id_loop cs ≡ true) ↔ All RequestCharacter cs
unfolding request_id_loop
request_id_loop_iff [] = ground arith
request_id_loop_iff (c ∷ cs) = ground (arith, request_id_loop_iff cs)

-- A request ID is valid exactly when it has 1 to 128 characters, each printable ASCII with no
-- space, slash or backslash.
pub is_recording_request_id_valid_iff :
    (id : Text)
    → (is_recording_request_id_valid id ≡ true)
      ↔ ((1 ≤ length id) × (length id ≤ 128) × All RequestCharacter id)
unfolding is_recording_request_id_valid
is_recording_request_id_valid_iff [] = ground arith
is_recording_request_id_valid_iff (c ∷ cs) = ground (arith, request_id_loop_iff (c ∷ cs))
