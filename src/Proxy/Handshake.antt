-- ===== src/Proxy/Handshake.antt =====
-- The whole handshake of `establish_socks5_tunnel` with a proxy that accepts.
use http_client.Prelude.{
  ℕ, ◌+◌, ◌≡◌, ◌≤◌, ◌<◌, refl, sym, ap, ◌∙◌, true, false, [], ◌∷◌, ◌++◌, Bytes, take, drop, length,
  ltb, leb, arith, append_assoc, append-nil, length-append, take-append, drop-append, ok, ◌%◌, ◌/◌,
  ◌*◌, subst,
}
use http_client.Proxy.{ProxyUrl}
use http_client.Proxy.Socks.{
  write, read_exact, greeting, auth_request, accepted, authenticate, select_method, negotiate,
  target_port, connect_command, address_length, reply_address, read_reply, connect_target,
  establish_socks5_tunnel,
}

-- A read that is given its bytes.
read_exact-append :
    (a rest sent : Bytes)
    → read_exact (length a) (record { input = a ++ rest; sent = sent })
      ≡ ok (a, record { input = rest; sent = sent })
unfolding read_exact
read_exact-append a rest sent = rw (leb_length a rest, take-append a rest, drop-append a rest) refl
  where
    leb_length : (a rest : Bytes) → leb (length a) (length (a ++ rest)) ≡ true
    leb_length a rest = ground (arith, length-append a rest)

-- The address in a proxy's reply: its type's byte, and the bytes up to the port.
pub data Address : Bytes → Type 0 where
  ipv4 : (a : Bytes) → length a ≡ 4 → Address (1 ∷ a)
  name : (a : Bytes) → length a ≤ 255 → Address (3 ∷ length a ∷ a)
  ipv6 : (a : Bytes) → length a ≡ 16 → Address (4 ∷ a)

read_four :
    (w x y z : ℕ) (rest sent : Bytes)
    → read_exact 4 (record { input = w ∷ x ∷ y ∷ z ∷ rest; sent = sent })
      ≡ ok (w ∷ x ∷ y ∷ z ∷ [], record { input = rest; sent = sent })
read_four w x y z rest sent = read_exact-append (w ∷ x ∷ y ∷ z ∷ []) rest sent

read_one :
    (w : ℕ) (rest sent : Bytes)
    → read_exact 1 (record { input = w ∷ rest; sent = sent })
      ≡ ok (w ∷ [], record { input = rest; sent = sent })
read_one w rest sent = read_exact-append (w ∷ []) rest sent

read_two :
    (w x : ℕ) (rest sent : Bytes)
    → read_exact 2 (record { input = w ∷ x ∷ rest; sent = sent })
      ≡ ok (w ∷ x ∷ [], record { input = rest; sent = sent })
read_two w x rest sent = read_exact-append (w ∷ x ∷ []) rest sent

-- The address and the port behind it.
read_address :
    (n : ℕ) (a : Bytes) (p q : ℕ) (rest sent : Bytes)
    → n ≡ length a
    → read_exact (n + 2) (record { input = a ++ (p ∷ q ∷ rest); sent = sent })
      ≡ ok (a ++ p ∷ q ∷ [], record { input = rest; sent = sent })
read_address n a p q rest sent e =
    let h : length (a ++ p ∷ q ∷ []) ≡ n + 2 = omega (arith, e, length-append a (p ∷ q ∷ [])) in
    subst
      (λ k.
        read_exact k (record { input = a ++ (p ∷ q ∷ rest); sent = sent })
        ≡ ok (a ++ p ∷ q ∷ [], record { input = rest; sent = sent }))
      h
      (subst
        (λ (x : Bytes).
          read_exact (length (a ++ p ∷ q ∷ [])) (record { input = x; sent = sent })
          ≡ ok (a ++ p ∷ q ∷ [], record { input = rest; sent = sent }))
        (append_assoc a (p ∷ q ∷ []) rest) (read_exact-append (a ++ p ∷ q ∷ []) rest sent))

-- A reply that accepts is read to its end and no further.
read_reply-Address :
    {a : Bytes}
    → Address a
    → (reserved p q : ℕ) (rest sent : Bytes)
    → read_reply (record { input = 5 ∷ 0 ∷ reserved ∷ a ++ (p ∷ q ∷ rest); sent = sent })
      ≡ ok (record { input = rest; sent = sent })
unfolding read_reply reply_address address_length
read_reply-Address (ipv4 a e) reserved p q rest sent =
    rw (read_reply, read_four 5 0 reserved 1 (a ++ (p ∷ q ∷ rest)) sent)
      (rw (read_address 4 a p q rest sent (sym e)) refl)
read_reply-Address (name a e) reserved p q rest sent =
    rw (read_reply, read_four 5 0 reserved 3 (length a ∷ a ++ (p ∷ q ∷ rest)) sent)
      (rw (read_one (length a) (a ++ (p ∷ q ∷ rest)) sent)
        (rw (read_address (length a) a p q rest sent refl) refl))
read_reply-Address (ipv6 a e) reserved p q rest sent =
    rw (read_reply, read_four 5 0 reserved 4 (a ++ (p ∷ q ∷ rest)) sent)
      (rw (read_address 16 a p q rest sent (sym e)) refl)

-- What a proxy that accepts answers to the greeting, and to the user name and password if it asks.
pub data Accepts (u : ProxyUrl) : Bytes → Bytes → Type 0 where
  no_authentication : Accepts u (5 ∷ 0 ∷ []) []
  with_password :
      length u.username ≤ 255
      → length u.password ≤ 255
      → Accepts u (5 ∷ 2 ∷ 1 ∷ 0 ∷ []) (auth_request u)

within_byte : (n : ℕ) → n ≤ 255 → ltb 255 n ≡ false
within_byte n h = ground arith

authenticate-Accepts :
    (u : ProxyUrl) (rest sent : Bytes)
    → length u.username ≤ 255
    → length u.password ≤ 255
    → authenticate u (record { input = 1 ∷ 0 ∷ rest; sent = sent })
      ≡ ok (record { input = rest; sent = sent ++ auth_request u })
unfolding authenticate write accepted
authenticate-Accepts u rest sent h k =
    rw (authenticate, within_byte (length u.username) h, within_byte (length u.password) k)
      (rw (read_two 1 0 rest (sent ++ auth_request u)) refl)

negotiate-Accepts :
    {u : ProxyUrl} {m auth : Bytes}
    → Accepts u m auth
    → (rest sent : Bytes)
    → negotiate u (record { input = m ++ rest; sent = sent })
      ≡ ok (record { input = rest; sent = (sent ++ greeting u) ++ auth })
unfolding negotiate select_method write
negotiate-Accepts {u} no_authentication rest sent =
    rw (negotiate, read_two 5 0 rest (sent ++ greeting u), append-nil (sent ++ greeting u)) refl
negotiate-Accepts {u} (with_password h k) rest sent =
    rw (negotiate, read_two 5 2 (1 ∷ 0 ∷ rest) (sent ++ greeting u))
      (authenticate-Accepts u rest (sent ++ greeting u) h k)

-- With a proxy that accepts a method the client knows and takes the connection, and a host and a port in
-- range, the client writes the greeting, the user name and password if it was asked for them, and the command for the host and
-- the port, and reads the proxy's answers to their end: what follows them is left for the tunnel.
pub establish_socks5_tunnel-Accepts :
    (u : ProxyUrl) (host port : Bytes) (n : ℕ) (m auth a : Bytes) (reserved p q : ℕ) (rest : Bytes)
    → length host ≤ 255
    → target_port port ≡ ok n
    → Accepts u m auth
    → Address a
    → establish_socks5_tunnel host port u
        (record { input = m ++ (5 ∷ 0 ∷ reserved ∷ a ++ (p ∷ q ∷ rest)); sent = [] })
      ≡ ok (record { input = rest; sent = greeting u ++ (auth ++ connect_command host n) })
unfolding establish_socks5_tunnel connect_target write
establish_socks5_tunnel-Accepts u host port n m auth a reserved p q rest h e accepts address =
    rw
      (
        establish_socks5_tunnel,
        negotiate-Accepts accepts (5 ∷ 0 ∷ reserved ∷ a ++ (p ∷ q ∷ rest)) [],
      )
      (rw (connect_target, within_byte (length host) h, e)
        (read_reply-Address address reserved p q rest
            ((greeting u ++ auth) ++ connect_command host n)
          ∙ ap (λ (x : Bytes). ok (record { input = rest; sent = x }))
              (append_assoc (greeting u) auth (connect_command host n))))

-- The host and the port of a command with a name, as RFC 1928 lays it out: the name's length, the name,
-- and the port in two bytes with the high one first.
abbrev pub port_value : Bytes → ℕ
port_value (high ∷ low ∷ []) = high * 256 + low
port_value other = 0

abbrev pub read_name : Bytes → Bytes × ℕ
read_name [] = ([], 0)
read_name (n ∷ rest) = (take n rest, port_value (drop n rest))

-- The command names the host and the port it was given: behind version, command, reserved byte and
-- address type, the host's length and the port's two bytes are read back, for every host of at most 255
-- bytes and every port below `2 ^ 16`.
pub connect_command-read_name :
    (host : Bytes) (port : ℕ)
    → length host ≤ 255
    → port < 65536
    → (take 4 (connect_command host port) ≡ 5 ∷ 1 ∷ 0 ∷ 3 ∷ [])
      × (read_name (drop 4 (connect_command host port)) ≡ (host, port))
unfolding connect_command
connect_command-read_name host port h k = (
  refl,
  rw (length_byte, take-append host _, drop-append host (port / 256 % 256 ∷ port % 256 ∷ []))
      (ap (λ (n : ℕ). (host, n)) (omega arith)),
)
  where
    length_byte : length host % 256 ≡ length host
    length_byte = omega arith
