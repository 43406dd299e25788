-- ===== src/Proxy/Socks.antt =====
-- `establish_socks5_tunnel`, over the bytes that the proxy sends and those that are written.
-- `read_exact` returns the bytes it was asked for or throws `End of file`.
use http_client.Prelude.{
  ℕ, zero, suc, ◌+◌, ◌-◌, ◌*◌, ◌/◌, ◌%◌, ◌||◌, not, [], ◌∷◌, ◌++◌, Option, none, some, Bytes, codes,
  ◌==◌, if◌then◌else◌, take, drop, length, is_nil, ltb, leb, Result, ok, err, ◌>>=◌,
}
use http_client.Text.{trim_front}
use http_client.Proxy.{ProxyUrl, is_digit}

-- A stream: what can still be read, and what has been written.
pub record Stream : Type 0 where
  pub input : Bytes
  pub sent : Bytes

unfoldable pub write : Bytes → Stream → Stream
write b s = record s { sent = s.sent ++ b }

unfoldable pub read_exact : ℕ → Stream → Result (Bytes × Stream)
read_exact n s =
    if leb n (length s.input)
    then ok (take n s.input, record s { input = drop n s.input })
    else err (codes "End of file")

-- An element of an array that was read whole.
abbrev pub at : Bytes → ℕ → ℕ
at [] i = 0
at (x ∷ xs) zero = x
at (x ∷ xs) (suc i) = at xs i

-- `std::stoul`: leading white space, a sign, and the longest run of digits; a minus sign negates the
-- value modulo `2 ^ 64`. `none` where it throws.
unfoldable pub read_digits : ℕ → Bytes → ℕ
unfolding is_digit
read_digits n [] = n
read_digits n (c ∷ s) =
    let rest = read_digits (n * 10 + (c - b'0')) s in if is_digit c then rest else n

unfoldable pub unsigned_value : Bytes → Option ℕ
unfolding read_digits
unsigned_value [] = none
unsigned_value (c ∷ s) =
    let n = read_digits 0 (c ∷ s) in
    if is_digit c then (if ltb n 18446744073709551616 then some n else none) else none

unfoldable pub negated : Option ℕ → Option ℕ
negated none = none
negated (some n) = some ((18446744073709551616 - n) % 18446744073709551616)

unfoldable pub signed_value : Bytes → Option ℕ
unfolding unsigned_value negated
signed_value [] = none
signed_value (c ∷ s) =
    if c == b'-'
    then negated (unsigned_value s)
    else if c == b'+'
    then unsigned_value s
    else unsigned_value (c ∷ s)

unfoldable pub stoul : Bytes → Option ℕ
unfolding signed_value
stoul s = signed_value (trim_front s)

-- The methods offered: only user name and password where there are any, else only none.
unfoldable pub greeting : ProxyUrl → Bytes
greeting u = 5 ∷ 1 ∷ (if not (is_nil u.username) || not (is_nil u.password) then 2 else 0) ∷ []

unfoldable pub auth_request : ProxyUrl → Bytes
auth_request u = 1 ∷ length u.username % 256 ∷ u.username ++ (length u.password % 256 ∷ u.password)

unfoldable pub accepted : Bytes → Stream → Result Stream
accepted auth_result s =
    if not (at auth_result 0 == 1) || not (at auth_result 1 == 0)
    then err (codes "socks5 authentication failed")
    else ok s

unfoldable pub authenticate : ProxyUrl → Stream → Result Stream
unfolding auth_request write read_exact accepted
authenticate u s =
    if ltb 255 (length u.username) || ltb 255 (length u.password)
    then err (codes "socks5 username/password too long")
    else do r ← read_exact 2 (write (auth_request u) s); accepted r.0 r.1

unfoldable pub select_method : ProxyUrl → Bytes → Stream → Result Stream
unfolding authenticate
select_method u method s =
    if not (at method 0 == 5) || at method 1 == 255
    then err (codes "socks5 proxy did not accept authentication method")
    else if at method 1 == 2
    then authenticate u s
    else if at method 1 == 0
    then ok s
    else err (codes "unsupported socks5 authentication method")

unfoldable pub negotiate : ProxyUrl → Stream → Result Stream
unfolding greeting select_method
negotiate u s = do r ← read_exact 2 (write (greeting u) s); select_method u r.0 r.1

-- The port as the code casts it to `unsigned`.
unfoldable pub target_port : Bytes → Result ℕ
unfolding stoul
target_port text = elim (stoul text) [
  | none ↦ err (codes "stoul")
  | some n ↦
      if ltb 65535 (n % 4294967296)
      then err (codes "socks5 target port out of range")
      else ok (n % 4294967296)
]

unfoldable pub connect_command : Bytes → ℕ → Bytes
connect_command host port =
    5 ∷ 1 ∷ 0 ∷ 3 ∷ length host % 256 ∷ host ++ (port / 256 % 256 ∷ port % 256 ∷ [])

-- `addr_len`, with the stream behind what was read for it.
unfoldable pub address_length : ℕ → Stream → Result (ℕ × Stream)
address_length kind s =
    if kind == 1
    then ok (4, s)
    else if kind == 3
    then (do r ← read_exact 1 s; ok (at r.0 0, r.1))
    else if kind == 4
    then ok (16, s)
    else err (codes "socks5 CONNECT returned invalid address type")

unfoldable pub reply_address : Bytes → Stream → Result (ℕ × Stream)
unfolding address_length
reply_address reply s =
    if not (at reply 0 == 5) || not (at reply 1 == 0)
    then err (codes "socks5 CONNECT failed")
    else address_length (at reply 3) s

unfoldable pub read_reply : Stream → Result Stream
unfolding reply_address
read_reply s = do
  r ← read_exact 4 s
  a ← reply_address r.0 r.1
  d ← read_exact (a.0 + 2) a.1
  ok d.1

unfoldable pub connect_target : Bytes → Bytes → Stream → Result Stream
unfolding target_port connect_command read_reply
connect_target host port s =
    if ltb 255 (length host)
    then err (codes "socks5 target host too long")
    else do p ← target_port port; read_reply (write (connect_command host p) s)

unfoldable pub establish_socks5_tunnel : Bytes → Bytes → ProxyUrl → Stream → Result Stream
unfolding negotiate connect_target
establish_socks5_tunnel host port u s = do s' ← negotiate u s; connect_target host port s'
