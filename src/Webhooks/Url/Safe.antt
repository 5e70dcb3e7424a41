-- ===== src/Webhooks/Url/Safe.antt =====
-- What createEndpoint of src/webhooks/webhooks.service.ts lets into the table.
use Prim.Native.String.{String}
use nexa_fx_js.Base.{
  codes, same_text_refl, ℕ, ◌+◌, ◌≤◌, ◌<◌, ◌≡◌, refl, inl, inr, Bool, true, false, ◌&&◌, Option,
  some, List, [], ◌∷◌, ◌++◌, ◌==◌, leb, if◌then◌else◌, any, filter, length, All, all_append, Text,
  arith, Bool-cases, Option-cases,
}
use nexa_fx_js.Base.Action.{
  Result, ok, err, Error, Result-cases, bad_request, error, local_url, private_address, dns_failed,
  bad_url,
}
use nexa_fx_js.Webhooks.{Endpoint, State, count_active_endpoints}
use nexa_fx_js.Webhooks.Address.{
  is_private_ip, in_private_range, ip_to_int, split_octets, octets_to_int,
}
use nexa_fx_js.Webhooks.Address.Ranges.{IsPrivateQuad, in_range_of_IsPrivateQuad}
use nexa_fx_js.Webhooks.Url.{
  Net, ends_with, is_local, reject_private, resolve_and_reject_private, check_host,
  validate_webhook_url, CreateEndpoint, new_endpoint, add_endpoint, create_endpoint,
}

-- The addresses behind a host at the time of the check.
abbrev pub addresses_of : Net → Text → Option (List Text)
addresses_of net host = if net.is_ip host then some (host ∷ []) else net.resolve_4 host

-- An IPv4 address whose octets are in no private range.
abbrev pub IsPublicIp : Net → Text → Type 0
IsPublicIp net ip = (net.is_ipv4 ip ≡ true) × ¬ IsPrivateQuad (split_octets [] ip)

-- Neither `localhost`, nor 0.0.0.0, nor a name under `.local`.
pub record IsRemote (host : Text) : Type 0 where
  pub not_localhost : ¬ (host ≡ codes "localhost")
  pub not_zero : ¬ (host ≡ codes "0.0.0.0")
  pub not_local : ¬ ((name : Text) × (host ≡ name ++ codes ".local"))

-- The URL has a host, which is no local name, and every address behind it is public.
pub record IsPublic (net : Net) (url : String) : Type 0 where
  pub host : Text
  pub addresses : List Text
  pub host_eq : net.hostname url ≡ some host
  pub remote : IsRemote host
  pub resolved : addresses_of net host ≡ some addresses
  pub public : All (IsPublicIp net) addresses

public_ip : (net : Net) (ip : Text) → is_private_ip net.is_ipv4 ip ≡ false → IsPublicIp net ip
unfolding is_private_ip ip_to_int
public_ip net ip h =
    let (four, out) = outside in
    (four, λ quad. let bad = in_range_of_IsPrivateQuad (split_octets [] ip) quad in cc (out, bad))
  where
    outside :
        (net.is_ipv4 ip ≡ true) × (in_private_range (octets_to_int (split_octets [] ip)) ≡ false)
    outside = ground arith

ends_with_append : (suffix name : Text) → ends_with suffix (name ++ suffix) ≡ true
ends_with_append suffix (c ∷ cs) = ground (arith, ends_with_append suffix cs)
ends_with_append [] [] = refl
ends_with_append (c ∷ cs) [] = rw (same_text_refl (c ∷ cs)) refl

IsRemote-of_checked : (host : Text) → is_local host ≡ false → IsRemote host
IsRemote-of_checked host h = record {
  not_localhost = λ e. let bad : is_local host ≡ true = rw (e) refl in cc (bad, h);
  not_zero = λ e. let bad : is_local host ≡ true = rw (e) refl in cc (bad, h);
  not_local = λ (name, e).
      let bad : ends_with (codes ".local") host ≡ true =
        rw (e) (ends_with_append (codes ".local") name) in
      ground (arith, bad, h);
}

public_ips :
    (net : Net) (ips : List Text)
    → any (is_private_ip net.is_ipv4) ips ≡ false
    → All (IsPublicIp net) ips
public_ips net [] h = tt
public_ips net (ip ∷ ips) h = (public_ip net ip (ground arith), public_ips net ips (ground arith))

rejected :
    (net : Net) (ips : List Text)
    → reject_private net ips ≡ ok tt
    → any (is_private_ip net.is_ipv4) ips ≡ false
unfolding reject_private
rejected net ips h = ground arith

passed_guard :
    {A : Type 0} (b : Bool) (e : Error) (r : Result A) (a : A)
    → (if b then err e else r) ≡ ok a
    → (b ≡ false) × (r ≡ ok a)
passed_guard b e r a h = ground arith

IsPublic-resolved :
    (net : Net) (url : String) (host : Text)
    → net.hostname url ≡ some host
    → is_local host ≡ false
    → net.is_ip host ≡ false
    → resolve_and_reject_private net host ≡ ok tt
    → IsPublic net url
unfolding resolve_and_reject_private
IsPublic-resolved net url host named remote no_ip h = elim (Option-cases (net.resolve_4 host)) [
  | inl e ↦
      let k : err (error dns_failed) ≡ ok (tt {0}) = rw (resolve_and_reject_private, e) at h in cc
  | inr (ips, e) ↦
      let k : reject_private net ips ≡ ok tt = rw (resolve_and_reject_private, e) at h in
      record {
        host = host;
        addresses = ips;
        host_eq = named;
        remote = IsRemote-of_checked host remote;
        resolved = rw (no_ip) e;
        public = public_ips net ips (rejected net ips k);
      }
]

IsPublic-checked :
    (net : Net) (url : String) (host : Text)
    → net.hostname url ≡ some host
    → check_host net host ≡ ok tt
    → IsPublic net url
unfolding check_host
IsPublic-checked net url host named h =
    let (remote, k) = passed_guard (is_local host) (bad_request local_url) _ tt h in
    elim (Bool-cases (net.is_ip host)) [
      | inl is_ip ↦
          let k' : (if is_private_ip net.is_ipv4 host
                then err (bad_request private_address)
                else ok tt)
              ≡ ok tt =
            rw (is_ip) at k in
          let (safe, _) =
            passed_guard (is_private_ip net.is_ipv4 host) (bad_request private_address) _ tt k' in
          record {
            host = host;
            addresses = host ∷ [];
            host_eq = named;
            remote = IsRemote-of_checked host remote;
            resolved = rw (is_ip) refl;
            public = (public_ip net host safe, tt);
          }
      | inr no_ip ↦ IsPublic-resolved net url host named remote no_ip (rw (no_ip) at k)
    ]

-- The URL that `validateWebhookUrl` accepts is public.
pub validate_webhook_url-IsPublic :
    (net : Net) (url : String) → validate_webhook_url net url ≡ ok tt → IsPublic net url
unfolding validate_webhook_url
validate_webhook_url-IsPublic net url h = elim (Option-cases (net.hostname url)) [
  | inl e ↦
      let k : err (bad_request bad_url) ≡ ok (tt {0}) = rw (validate_webhook_url, e) at h in cc
  | inr (host, e) ↦ IsPublic-checked net url host e (rw (validate_webhook_url, e) at h)
]

-- Every endpoint has a public URL, and no owner has more than `max_endpoints` of them.
pub record IsSafe (max_endpoints : ℕ) (net : Net) (s : State) : Type 0 where
  pub safe : All (λ (e : Endpoint). IsPublic net e.url) s.endpoints
  pub bounded : (owner : ℕ) → count_active_endpoints owner s ≤ max_endpoints

-- The number of rows that fit, when one is added.
length-filter-append :
    {A : Type 0} (p : A → Bool) (xs : List A) (x : A)
    → length (filter p (xs ++ x ∷ [])) ≡ length (filter p xs) + (if p x then 1 else 0)
length-filter-append p [] x = ground arith
length-filter-append p (y ∷ ys) x = ground (arith, length-filter-append p ys x)

add_endpoint-count :
    (max_endpoints : ℕ) (dto : CreateEndpoint) (s : State) (owner : ℕ)
    → count_active_endpoints owner s ≤ max_endpoints
    → count_active_endpoints dto.owner_id s < max_endpoints
    → count_active_endpoints owner (add_endpoint dto s) ≤ max_endpoints
add_endpoint-count max_endpoints dto s owner h k =
    rw
      (length-filter-append (λ (e : Endpoint). (e.owner_id == owner) && e.is_active) s.endpoints
        (new_endpoint dto s.next_id))
      elim (Bool-cases (dto.owner_id == owner)) [
        | inl same ↦
            let e : dto.owner_id ≡ owner = ground arith in
            let room : count_active_endpoints owner s < max_endpoints = rw (e) at k in
            rw (same) (omega arith)
        | inr other ↦ rw (other) (omega arith)
      ]

-- `createEndpoint`, whether it succeeds or throws, leaves only endpoints with public URLs, and no
-- owner with more than `max_endpoints` active ones, if it was so before. The host of a public URL is
-- not `localhost`, 0.0.0.0 or a name under `.local`, and is or resolves to IPv4 addresses only, none
-- of them in 10.0.0.0/8, 127.0.0.0/8, 172.16.0.0/12, 192.168.0.0/16, 169.254.0.0/16 or 100.64.0.0/10.
pub create_endpoint-IsSafe :
    (max_endpoints : ℕ) (net : Net) (dto : CreateEndpoint) (s : State)
    → IsSafe max_endpoints net s
    → IsSafe max_endpoints net (create_endpoint max_endpoints net dto s).1
unfolding create_endpoint
create_endpoint-IsSafe max_endpoints net dto s h =
    elim (Bool-cases (leb max_endpoints (count_active_endpoints dto.owner_id s))) [
      | inl full ↦ rw (full) h
      | inr room ↦ elim (Result-cases (validate_webhook_url net dto.url)) [
        | inr (e, bad) ↦ rw (room, bad) h
        | inl (a, good) ↦
            rw (room, good)
              (record {
                safe =
                    all_append (λ (e : Endpoint). IsPublic net e.url) s.endpoints
                      (new_endpoint dto s.next_id) h.safe
                      (validate_webhook_url-IsPublic net dto.url good);
                bounded = λ owner.
                    add_endpoint-count max_endpoints dto s owner (h.bounded owner) (ground arith);
              })
      ]
    ]
