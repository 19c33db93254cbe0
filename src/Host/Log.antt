-- ===== src/Host/Log.antt =====
-- host/src/lib.rs: `host-log`, and `sanitize_log_message`. A message is its UTF-8 bytes.
use plecto.Prelude.{
  ℕ, zero, suc, ◌-◌, ◌*◌, ◌≤◌, ◌≡◌, refl, Bool, false, ◌&&◌, ◌||◌, List, [], ◌∷◌, ◌++◌, Text,
  Option, none, some, take, length, get_elem?, any, if◌then◌else◌, ltb, leb, ◌==◌, ltb→ge, arith,
  tests, bytes, Bool-cases, inl, inr, All, length-append,
}

-- MAX_LOG_LINES_PER_REQUEST and MAX_LOG_MSG_BYTES.
abbrev pub max_log_lines_per_request : ℕ
max_log_lines_per_request = 256

abbrev pub max_log_msg_bytes : ℕ
max_log_msg_bytes = 8192

pub data LogLevel : Type 0 where
  trace debug info warn error : LogLevel

pub record LogLine : Type 0 where
  pub level : LogLevel
  pub message : Text

-- `is_char_boundary`: a byte that continues a character is none.
abbrev continues : Option ℕ → Bool
continues none = false
continues (some b) = leb 128 b && ltb b 192

-- The loop that looks for a boundary at or below `end`.
abbrev boundary : Text → ℕ → ℕ
boundary message zero = 0
boundary message (suc end) =
    let below = boundary message end in
    if continues (get_elem? message (suc end)) then below else suc end

abbrev pub truncated : Text → Text
truncated message =
    if ltb max_log_msg_bytes (length message)
    then take (boundary message max_log_msg_bytes) message
    else message

-- The bytes whose presence makes the code replace the control characters.
abbrev pub is_low_control : ℕ → Bool
is_low_control b = ltb b 32 || b == 127

-- U+FFFD.
abbrev pub replacement : Text
replacement = 239 ∷ 191 ∷ 189 ∷ []

-- `char::is_control` of each character, on UTF-8: U+0000 to U+001F and U+007F are one byte each, and
-- U+0080 to U+009F are 0xC2 and a byte of that range.
abbrev pub neutralize : Text → Text
neutralize [] = []
neutralize (b ∷ []) = if is_low_control b then replacement else b ∷ []
neutralize (b ∷ c ∷ rest) =
    let whole = neutralize rest in
    let after = neutralize (c ∷ rest) in
    if is_low_control b
    then replacement ++ after
    else if (b == 194) && leb 128 c && ltb c 160
    then replacement ++ whole
    else b ∷ after

unfoldable pub sanitize_log_message : Text → Text
sanitize_log_message message =
    let m = truncated message in if any is_low_control m then neutralize m else m

-- "… host-log truncated (per-request line cap reached)".
abbrev pub truncation_marker : LogLine
truncation_marker = record {
  level = warn;
  message = 226 ∷ 128 ∷ 166 ∷ bytes " host-log truncated (per-request line cap reached)";
}

unfoldable pub log : List LogLine → LogLevel → Text → List LogLine
log logs level message =
    let n = length logs in
    if ltb n (max_log_lines_per_request - 1)
    then logs ++ record { level = level; message = sanitize_log_message message } ∷ []
    else if n == max_log_lines_per_request - 1
    then logs ++ truncation_marker ∷ []
    else logs

unfoldable pub log_all : List LogLine → List (LogLevel × Text) → List LogLine
log_all logs [] = logs
log_all logs ((level, message) ∷ rest) = log_all (log logs level message) rest

-- No byte of a line can end it or start a terminal's escape sequence, and it is short.
abbrev pub IsClean : Text → Type 0
IsClean m = any is_low_control m ≡ false

||_false : (a b : Bool) → (a || b) ≡ false → (a ≡ false) × (b ≡ false)
||_false a b h = ground arith

neutralize-IsClean : (m : Text) → IsClean (neutralize m)
neutralize-IsClean [] = refl
neutralize-IsClean (b ∷ []) = elim (Bool-cases (is_low_control b)) [
  | inl e ↦ rw e refl
  | inr e ↦ rw e (rw e refl)
]
neutralize-IsClean (b ∷ c ∷ rest) = elim (Bool-cases (is_low_control b)) [
  | inl e ↦ rw e (neutralize-IsClean (c ∷ rest))
  | inr e ↦ elim (Bool-cases ((b == 194) && leb 128 c && ltb c 160)) [
    | inl two ↦ rw (e, two) (neutralize-IsClean rest)
    | inr one ↦ rw (e, one) (rw e (neutralize-IsClean (c ∷ rest)))
  ]
]

length-neutralize : (m : Text) → length (neutralize m) ≤ 3 * length m
length-neutralize [] = omega arith
length-neutralize (b ∷ []) = ground arith
length-neutralize (b ∷ c ∷ rest) = elim (Bool-cases (is_low_control b)) [
  | inl e ↦ rw e (omega (arith, length-neutralize (c ∷ rest)))
  | inr e ↦ elim (Bool-cases ((b == 194) && leb 128 c && ltb c 160)) [
    | inl two ↦ rw (e, two) (omega (arith, length-neutralize rest))
    | inr one ↦ rw (e, one) (omega (arith, length-neutralize (c ∷ rest)))
  ]
]

boundary-le : (message : Text) (end : ℕ) → boundary message end ≤ end
boundary-le message zero = omega arith
boundary-le message (suc end) = elim (Bool-cases (continues (get_elem? message (suc end)))) [
  | inl e ↦ rw e (omega (arith, boundary-le message end))
  | inr e ↦ rw e (omega arith)
]

length-take : (n : ℕ) (xs : Text) → length (take n xs) ≤ n
length-take zero xs = omega arith
length-take (suc n) [] = omega arith
length-take (suc n) (x ∷ xs) = omega (arith, length-take n xs)

length-truncated : (message : Text) → length (truncated message) ≤ max_log_msg_bytes
length-truncated message = elim (Bool-cases (ltb max_log_msg_bytes (length message))) [
  | inl e ↦ rw e (
      omega (
        arith,
        length-take (boundary message max_log_msg_bytes) message,
        boundary-le message max_log_msg_bytes,
      ))
  | inr e ↦ rw e (ltb→ge max_log_msg_bytes (length message) e)
]

-- A line that a filter may leave.
abbrev pub IsBounded : LogLine → Type 0
IsBounded l = IsClean l.message × (length l.message ≤ 3 * max_log_msg_bytes)

sanitize_log_message-IsClean :
    (message : Text)
    → IsClean (sanitize_log_message message)
      × (length (sanitize_log_message message) ≤ 3 * max_log_msg_bytes)
unfolding sanitize_log_message
sanitize_log_message-IsClean message = elim (Bool-cases (any is_low_control (truncated message))) [
  | inl e ↦ rw e (
    neutralize-IsClean (truncated message),
    omega (arith, length-neutralize (truncated message), length-truncated message),
  )
  | inr e ↦ rw e (e, omega (arith, length-truncated message))
]

All-append : (xs ys : List LogLine) → All IsBounded xs → All IsBounded ys → All IsBounded (xs ++ ys)
All-append [] ys h k = k
All-append (x ∷ xs) ys h k = (h.0, All-append xs ys h.1 k)

abbrev pub IsLog : List LogLine → Type 0
IsLog logs = (length logs ≤ max_log_lines_per_request) × All IsBounded logs

log-IsLog :
    (logs : List LogLine) (level : LogLevel) (message : Text)
    → IsLog logs
    → IsLog (log logs level message)
unfolding log
log-IsLog logs level message (few, lines) =
    elim (Bool-cases (ltb (length logs) (max_log_lines_per_request - 1))) [
      | inl e ↦ rw e (
          let line : LogLine = record { level = level; message = sanitize_log_message message } in
          (
            omega (tests, e, length-append logs (line ∷ [])),
            All-append logs (line ∷ []) lines (sanitize_log_message-IsClean message, tt),
          ))
      | inr e ↦ elim (Bool-cases (length logs == max_log_lines_per_request - 1)) [
        | inl f ↦
            rw (e, f)
              (
                ground (arith, f, length-append logs (truncation_marker ∷ [])),
                All-append logs (truncation_marker ∷ []) lines ((refl, omega arith), tt),
              )
        | inr f ↦ rw (e, f) (few, lines)
      ]
    ]

-- However often a filter logs in one request and whatever bytes it logs: at most 256 lines are kept, none
-- holds a byte below 0x20 or 0x7F (no line break, no escape), and none is longer than three times 8192 bytes.
pub log_all-IsLog :
    (calls : List (LogLevel × Text)) (logs : List LogLine) → IsLog logs → IsLog (log_all logs calls)
unfolding log_all
log_all-IsLog [] logs h = h
log_all-IsLog ((level, message) ∷ rest) logs h =
    log_all-IsLog rest _ (log-IsLog logs level message h)
