-- ===== src/Ctcp/Sys/Input.antt =====
-- `conn_input` of ctcp_sys_internal.c, with `add_network_line_ending` of ctcp_sys_internal.h. The answers of
-- the kernel's `read` are arguments.
use cs.Base.{
  ℕ, zero, suc, ◌+◌, ◌-◌, ◌≤◌, ◌<◌, ◌≡◌, ◌≢◌, ◌⊎◌, refl, ap, List, [], ◌∷◌, ◌++◌, Bool, true, false,
  not, leb, ◌==◌, ◌&&◌, if◌then◌else◌, length, take, arith, Run, done, require, ◌>>=◌, ◌>>◌,
  Bool-cases, inl, inr, le→leb, length-append, if-both,
}
use cs.Bytes.{of_bytes}
use cs.Ctcp.Read.{Input, got, nothing, eof}

-- What `read` answers: bytes, 0 at the end of the file, or -1 with EAGAIN or with another error.
pub data ReadResult : Type 0 where
  bytes : List ℕ → ReadResult
  at_end : ReadResult
  again : ReadResult
  failed : ReadResult

-- The options of the process: a program's output is read, the peer is a local one, and the tester runs.
pub record Mode : Type 0 where
  pub run_program : Bool
  pub unix_socket : Bool
  pub tester : Bool

abbrev pub newline : ℕ
newline = 10

abbrev pub carriage_return : ℕ
carriage_return = 13

-- The last byte, after `c`.
abbrev pub last_byte : ℕ → List ℕ → ℕ
last_byte c [] = c
last_byte c (x ∷ xs) = last_byte x xs

-- The last byte, a line feed, becomes two.
abbrev pub line_ending : ℕ → List ℕ → List ℕ
line_ending c [] = carriage_return ∷ newline ∷ []
line_ending c (x ∷ xs) = c ∷ line_ending x xs

-- One more byte; `r += -1` where there is none yet.
abbrev pub one_more : List ℕ → ReadResult → List ℕ
one_more buf (bytes more) = buf ++ more
one_more buf at_end = buf
one_more buf again = take (length buf - 1) buf
one_more buf failed = take (length buf - 1) buf

-- The first `r` bytes of the buffer of size `cap`, when the peer is a web server.
unfoldable pub network_line : ℕ → ℕ → List ℕ → ReadResult → Run (List ℕ)
network_line cap c xs second =
    if last_byte c xs == newline
    then (do require (leb (length (c ∷ xs) + 2) cap); done (line_ending c xs))
    else done (one_more (c ∷ xs) second)

-- The end of the function: what counts as the end of the file, with the flag that is kept.
abbrev pub report : Mode → List ℕ → Bool × Input
report mode [] = (true, eof)
report mode (c ∷ xs) =
    if mode.tester && c == 0x1a then (true, eof) else (false, got (of_bytes (c ∷ xs)))

abbrev pub network_report : ℕ → Mode → List ℕ → ReadResult → Run (Bool × Input)
network_report cap mode [] second = done (report mode [])
network_report cap mode (c ∷ xs) second = do
  buf ← network_line cap c xs second
  done (report mode buf)

abbrev pub read_report : ℕ → Mode → ReadResult → ReadResult → Run (Bool × Input)
read_report cap mode (bytes xs) second =
    if mode.run_program
    then done (report mode xs)
    else if mode.unix_socket
    then done (report mode xs)
    else network_report cap mode xs second
read_report cap mode at_end second = done (true, eof)
read_report cap mode again second = done (false, nothing)
read_report cap mode failed second = done (true, eof)

-- The request of the first `read`.
abbrev pub request : Mode → ℕ → ℕ
request mode len = if mode.run_program then len else if mode.unix_socket then len else len - 1

unfoldable pub conn_input :
    ℕ → Mode → Bool → Bool → ℕ → (ℕ → ReadResult) → ReadResult → Run (Bool × Input)
unfolding network_line
conn_input cap mode delete_me read_eof len first second = do
  require (not delete_me)
  if read_eof then done (true, eof) else read_report cap mode (first (request mode len)) second

-- The answers are within their requests: `read` returns no more than was asked for, and bytes only.
abbrev pub Within : ℕ → ReadResult → Type 0
Within n (bytes xs) = (0 < length xs) × (length xs ≤ n)
Within n at_end = Unit {0}
Within n again = Unit {0}
Within n failed = Unit {0}

abbrev pub Few : ℕ → Input → Type 0
Few len (got b) = (0 < b.len) × (b.len ≤ len)
Few len nothing = Unit {0}
Few len eof = Unit {0}

length-line_ending : (c : ℕ) (xs : List ℕ) → length (line_ending c xs) ≡ length xs + 2
length-line_ending c [] = omega arith
length-line_ending c (x ∷ xs) = omega (arith, length-line_ending x xs)

length-take : (n : ℕ) (xs : List ℕ) → length (take n xs) ≤ length xs
length-take zero xs = omega arith
length-take (suc n) [] = omega arith
length-take (suc n) (x ∷ xs) = omega (arith, length-take n xs)

length-one_more :
    (buf : List ℕ) (second : ReadResult)
    → Within 1 second
    → length (one_more buf second) ≤ length buf + 1
length-one_more buf (bytes more) w = omega (arith, length-append {0} buf more, w)
length-one_more buf at_end w = omega arith
length-one_more buf again w = omega (arith, length-take (length buf - 1) buf)
length-one_more buf failed w = omega (arith, length-take (length buf - 1) buf)

report-Few : (mode : Mode) (len : ℕ) (xs : List ℕ) → length xs ≤ len → Few len (report mode xs).1
report-Few mode len [] h = tt
report-Few mode len (c ∷ xs) h =
    if-both (λ (p : Bool × Input). Few len p.1) (mode.tester && c == 0x1a) tt (omega arith, h)

-- What a call of `conn_input` within its bounds comes to.
abbrev Bounded : ℕ → Run (Bool × Input) → Type 0
Bounded len r = (p : Bool × Input) × (r ≡ done p) × Few len p.1

network_report-Bounded :
    (cap len : ℕ) (mode : Mode) (xs : List ℕ) (second : ReadResult)
    → len < cap
    → 0 < len
    → length xs ≤ len - 1
    → Within 1 second
    → Bounded len (network_report cap mode xs second)
unfolding network_line ◌>>=◌ ◌>>◌
network_report-Bounded cap len mode [] second room some_len few w = (report mode [], refl, tt)
network_report-Bounded cap len mode (c ∷ xs) second room some_len few w =
    elim (Bool-cases (last_byte c xs == newline)) [
      | inl line ↦ (
        report mode (line_ending c xs),
        rw (line, le→leb (length (c ∷ xs) + 2) cap (omega arith)),
        report-Few mode len (line_ending c xs) (omega (arith, length-line_ending c xs)),
      )
      | inr plain ↦ (
        report mode (one_more (c ∷ xs) second),
        rw plain,
        report-Few mode len (one_more (c ∷ xs) second)
            (omega (arith, length-one_more (c ∷ xs) second w)),
      )
    ]

read_report-Bounded :
    (cap len : ℕ) (mode : Mode) (r second : ReadResult)
    → len < cap
    → 0 < len
    → Within (request mode len) r
    → Within 1 second
    → Bounded len (read_report cap mode r second)
read_report-Bounded cap len mode at_end second room some_len w w' = ((true, eof), refl, tt)
read_report-Bounded cap len mode again second room some_len w w' = ((false, nothing), refl, tt)
read_report-Bounded cap len mode failed second room some_len w w' = ((true, eof), refl, tt)
read_report-Bounded cap len mode (bytes xs) second room some_len w w' =
    elim (Bool-cases mode.run_program) [
      | inl program ↦
          simp program (report mode xs, refl, report-Few mode len xs (simp program at w.1))
      | inr web ↦ elim (Bool-cases mode.unix_socket) [
        | inl local ↦
            simp (web, local)
              (report mode xs, refl, report-Few mode len xs (simp (web, local) at w.1))
        | inr far ↦
            simp (web, far)
              (network_report-Bounded cap len mode xs second room some_len (simp (web, far) at w.1)
                w')
      ]
    ]

-- With a buffer that is longer than the length asked for, which is not 0, and a connection that is not to be
-- deleted, conn_input returns, in every mode and whatever `read` answers within its requests: no write leaves
-- the buffer, and the bytes that it reports are at least 1 and at most as many as were asked for.
pub conn_input-Bounded :
    (cap len : ℕ) (mode : Mode) (read_eof : Bool) (first : ℕ → ReadResult) (second : ReadResult)
    → len < cap
    → 0 < len
    → ((n : ℕ) → Within n (first n))
    → Within 1 second
    → (p : Bool × Input) × (conn_input cap mode false read_eof len first second ≡ done p)
      × Few len p.1
unfolding conn_input ◌>>=◌ ◌>>◌
conn_input-Bounded cap len mode read_eof first second room some_len w w' =
    elim (Bool-cases read_eof) [
      | inl over ↦ ((true, eof), rw over, tt)
      | inr going ↦ rw going (
          read_report-Bounded cap len mode (first (request mode len)) second room some_len
            (w (request mode len)) w')
    ]

last_byte-snoc : (x : ℕ) (xs : List ℕ) (c : ℕ) → last_byte x (xs ++ c ∷ []) ≡ c
last_byte-snoc x [] c = refl
last_byte-snoc x (y ∷ xs) c = last_byte-snoc y xs c

take-append : (xs ys : List ℕ) → take (length xs) (xs ++ ys) ≡ xs
take-append [] ys = refl
take-append (x ∷ xs) ys = ap (λ l. x ∷ l) (take-append xs ys)

take-snoc : (xs : List ℕ) (c : ℕ) → take (length (xs ++ c ∷ []) - 1) (xs ++ c ∷ []) ≡ xs
take-snoc xs c =
    let e : length (xs ++ c ∷ []) - 1 ≡ length xs = omega (arith, length-append {0} xs (c ∷ [])) in
    rw e (take-append xs (c ∷ []))

plain : (c : ℕ) → c ≢ newline → (c == newline) ≡ false
plain c h = ground arith

network_report-short :
    (cap : ℕ) (mode : Mode) (xs : List ℕ) (c : ℕ) (second : ReadResult)
    → c ≢ newline
    → (second ≡ again) ⊎ (second ≡ failed)
    → network_report cap mode (xs ++ c ∷ []) second ≡ done (report mode xs)
unfolding network_line ◌>>=◌
network_report-short cap mode [] c second h (inl e) = rw (plain c h, e)
network_report-short cap mode [] c second h (inr e) = rw (plain c h, e)
network_report-short cap mode (x ∷ xs) c second h (inl e) =
    rw (last_byte-snoc x xs c, plain c h, e) (ap (λ l. done (report mode l)) (take-snoc (x ∷ xs) c))
network_report-short cap mode (x ∷ xs) c second h (inr e) =
    rw (last_byte-snoc x xs c, plain c h, e) (ap (λ l. done (report mode l)) (take-snoc (x ∷ xs) c))

-- Towards a web server, when `read` yields bytes that do not end a line and has no more at the next call, the
-- -1 of that call is added to the count: conn_input reports all bytes but the last, which is lost, and a
-- single byte is reported as the end of the file.
pub conn_input-short :
    (cap len : ℕ) (mode : Mode) (first : ℕ → ReadResult) (second : ReadResult) (xs : List ℕ) (c : ℕ)
    → mode.run_program ≡ false
    → mode.unix_socket ≡ false
    → first (len - 1) ≡ bytes (xs ++ c ∷ [])
    → c ≢ newline
    → (second ≡ again) ⊎ (second ≡ failed)
    → conn_input cap mode false false len first second ≡ done (report mode xs)
unfolding conn_input ◌>>=◌ ◌>>◌
conn_input-short cap len mode first second xs c web far e h k =
    simp (web, far, e) (network_report-short cap mode xs c second h k)
