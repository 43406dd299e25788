-- ===== src/Proxy/Parse.antt =====
-- `parse_proxy_url` on a proxy's url that is written from its parts.
use http_client.Prelude.{
  ℕ, ◌≡◌, ◌≢◌, refl, sym, false, [], ◌∷◌, ◌++◌, Bytes, is_nil, arith, All-append, take-append,
  drop-append_cons, ok,
}
use http_client.Text.{Lacks}
use http_client.Text.Search.{rfind-Lacks, rfind-append}
use http_client.Url.{scheme_mark}
use http_client.Url.Parse.{find_text-scheme, drop-mark, authority_of-Lacks}
use http_client.Proxy.{ProxyUrl, no_url, with_host, with_authority, require_host, parse_proxy_url}

-- The host and the port of a proxy's url.
pub record IsAddress (host port : Bytes) : Type 0 where
  pub host_slash : Lacks b'/' host
  pub host_at : Lacks b'@' host
  pub nonempty : is_nil host ≡ false
  pub port_slash : Lacks b'/' port
  pub port_at : Lacks b'@' port
  pub port_colon : Lacks b':' port

abbrev pub address_of : Bytes → Bytes → Bytes
address_of host port = host ++ b':' ∷ port

address-Lacks :
    (c : ℕ) (host port : Bytes)
    → c ≢ b':'
    → Lacks c host
    → Lacks c port
    → Lacks c (address_of host port)
address-Lacks c host port n h p = All-append _ host (b':' ∷ port) h (λ e. n (sym e), p)

with_host-port :
    (host port : Bytes) (u : ProxyUrl)
    → Lacks b':' port
    → with_host (address_of host port) u ≡ record u { host = host; port = port }
unfolding with_host
with_host-port host port u h =
    rw
      (
        with_host,
        rfind-append b':' host port h,
        take-append host (b':' ∷ port),
        drop-append_cons host port b':',
      )
      refl

-- Behind the scheme the authority is read, if the url has no path.
parse_proxy_url-authority :
    (scheme authority : Bytes)
    → Lacks b':' scheme
    → Lacks b'/' authority
    → parse_proxy_url (scheme ++ (scheme_mark ++ authority))
      ≡ require_host (with_authority authority (record no_url { scheme = scheme }))
unfolding parse_proxy_url
parse_proxy_url-authority scheme authority hs ha =
    rw
      (
        parse_proxy_url,
        find_text-scheme scheme authority hs,
        take-append scheme (scheme_mark ++ authority),
        drop-mark scheme authority,
        authority_of-Lacks authority ha,
      )
      refl

-- A proxy's url that is written from a scheme without `:`, a host and a port is read back part by part,
-- with no user name and no password. The host is not empty, and neither part has `/` or `@`, nor the
-- port `:`.
pub parse_proxy_url-print :
    (scheme host port : Bytes)
    → Lacks b':' scheme
    → IsAddress host port
    → parse_proxy_url (scheme ++ (scheme_mark ++ address_of host port))
      ≡ ok (record { scheme = scheme; host = host; port = port; username = []; password = [] })
unfolding with_authority require_host
parse_proxy_url-print scheme host port hs v =
    rw
      (
        parse_proxy_url-authority scheme (address_of host port) hs
            (address-Lacks b'/' host port (omega arith) v.host_slash v.port_slash),
        with_authority,
        rfind-Lacks b'@' (address_of host port)
            (address-Lacks b'@' host port (omega arith) v.host_at v.port_at),
        with_host-port host port (record no_url { scheme = scheme }) v.port_colon,
        v.nonempty,
      )
      refl
