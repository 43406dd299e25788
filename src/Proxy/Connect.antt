-- ===== src/Proxy/Connect.antt =====
-- `establish_http_connect_tunnel`: the request it writes, and its loop over what the proxy sends, one
-- list for each `async_read_some`. A read at the end of the stream throws `End of file`.
use http_client.Prelude.{
  ℕ, ◌+◌, ◌||◌, List, [], ◌∷◌, ◌++◌, none, some, Bytes, codes, if◌then◌else◌, take, length, is_nil,
  ltb, leb, Result, ok, err,
}
use http_client.Text.{find_text}
use http_client.Proxy.{parse_http_status_code}

abbrev pub crlf : Bytes
crlf = 13 ∷ 10 ∷ []

abbrev pub crlf_twice : Bytes
crlf_twice = 13 ∷ 10 ∷ 13 ∷ 10 ∷ []

unfoldable pub authorization_line : Bytes → Bytes
authorization_line a = if is_nil a then [] else codes "Proxy-Authorization: " ++ (a ++ crlf)

unfoldable pub connect_request : Bytes → Bytes → Bytes → Bytes
unfolding authorization_line
connect_request host port authorization =
    codes "CONNECT "
    ++ (host
        ++ b':'
          ∷ (port
              ++ (codes " HTTP/1.1"
                  ++ (crlf
                      ++ (codes "Host: "
                          ++ (host
                              ++ b':'
                                ∷ (port
                                    ++ (crlf
                                        ++ (codes "Proxy-Connection: keep-alive"
                                            ++ (crlf
                                                ++ (authorization_line authorization
                                                    ++ crlf)))))))))))

-- What the loop does with the end of the headers found: the status decides.
unfoldable pub connect_status : Bytes → ℕ → Result ℕ
connect_status response end =
    let status = parse_http_status_code (take (4 + end) response) in
    if ltb status 200 || leb 300 status then err (codes "proxy CONNECT failed") else ok status

-- The loop, with the response read so far. The result names the status, which
-- the source only tests.
unfoldable pub connect_loop : List Bytes → Bytes → Result ℕ
unfolding connect_status
connect_loop [] response = err (codes "End of file")
connect_loop (chunk ∷ chunks) response =
    let response' = response ++ chunk in
    let rest = connect_loop chunks response' in
    elim (find_text crlf_twice response') [
      | some end ↦ connect_status response' end
      | none ↦
          if ltb 65536 (length response')
          then err (codes "proxy CONNECT response too large")
          else rest
    ]

-- What is written, and the outcome.
unfoldable pub establish_http_connect_tunnel : Bytes → Bytes → Bytes → List Bytes → Bytes × Result ℕ
unfolding connect_request connect_loop
establish_http_connect_tunnel host port authorization chunks =
    (connect_request host port authorization, connect_loop chunks [])
