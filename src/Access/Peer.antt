-- ===== src/Access/Peer.antt =====
-- Peers of the form `scheme:address:port`, as gRPC names them.
use cccloud.Prelude.{
  ℕ, ◌+◌, ◌-◌, ◌^◌, ◌<◌, ◌≡◌, refl, false, [], ◌∷◌, ◌++◌, arith, length, length-append, ap, some,
}
use cccloud.Text.{
  Text, codes, drop-append_suc, Without, find, rfind, substr, drop, find-append, rfind-append,
  take-append,
}
use cccloud.Logger.{LogEntry}
use cccloud.Text.Numbers.{value, stoi}
use cccloud.Text.Numbers.Digits.{AreDigits, decimal, parse_int_digits}
use cccloud.Access.{parse_context_info, store_peer, store_port, split_peer, to_u32}

stoi_digits :
    (c : ℕ) (s : Text)
    → AreDigits (c ∷ s)
    → decimal 0 (c ∷ s) < 2 ^ 31
    → stoi (c ∷ s) ≡ value false (decimal 0 (c ∷ s)) []
unfolding stoi
stoi_digits c s d small = parse_int_digits (2 ^ 31) c s d small

no_colon : (s : Text) → AreDigits s → Without b':' s
no_colon [] d = tt
no_colon (c ∷ s) d = ((λ e. absurd (omega (arith, e, d.1))), no_colon s d.2)

-- The address may hold colons itself.
pub peer_of : Text → Text → Text → Text
peer_of scheme ip port = scheme ++ (b':' ∷ (ip ++ (b':' ∷ port)))

find-peer_of :
    (scheme ip port : Text)
    → Without b':' scheme
    → find b':' (peer_of scheme ip port) ≡ some (length scheme)
unfolding peer_of
find-peer_of scheme ip port w = find-append b':' scheme (ip ++ (b':' ∷ port)) w

peer_of-eq :
    (scheme ip port : Text) → peer_of scheme ip port ≡ (scheme ++ (b':' ∷ ip)) ++ (b':' ∷ port)
unfolding peer_of
peer_of-eq [] ip port = refl
peer_of-eq (c ∷ scheme) ip port = ap (λ s. c ∷ s) (peer_of-eq scheme ip port)

last_colon : (scheme ip : Text) → length (scheme ++ (b':' ∷ ip)) ≡ length scheme + 1 + length ip
last_colon scheme ip = omega (arith, length-append scheme (b':' ∷ ip))

rfind-peer_of :
    (scheme ip port : Text)
    → Without b':' port
    → rfind b':' (peer_of scheme ip port) ≡ some (length scheme + 1 + length ip)
rfind-peer_of scheme ip port w =
    rw (peer_of-eq, rfind-append b':' (scheme ++ (b':' ∷ ip)) port w, last_colon) refl

address-peer_of :
    (scheme ip port : Text) → substr (length scheme + 1) (length ip) (peer_of scheme ip port) ≡ ip
unfolding peer_of substr
address-peer_of scheme ip port =
    rw (drop-append_suc scheme b':' (ip ++ (b':' ∷ port))) (take-append ip (b':' ∷ port))

port-peer_of :
    (scheme ip port : Text)
    → drop (length scheme + 1 + length ip + 1) (peer_of scheme ip port) ≡ port
port-peer_of scheme ip port =
    rw (peer_of-eq, ← last_colon) (drop-append_suc (scheme ++ (b':' ∷ ip)) b':' port)

split_peer-store_peer :
    (peer : Text) (first last : ℕ) (log : LogEntry)
    → find b':' peer ≡ some first
    → rfind b':' peer ≡ some last
    → split_peer peer log ≡ store_peer peer first last log
unfolding split_peer
split_peer-store_peer peer first last log e e' = ground (arith, e, e')

store_peer-peer_of :
    (scheme ip : Text) (c : ℕ) (port : Text) (log : LogEntry)
    → AreDigits (c ∷ port)
    → decimal 0 (c ∷ port) < 2 ^ 31
    → store_peer (peer_of scheme ip (c ∷ port)) (length scheme) (length scheme + 1 + length ip) log
      ≡ record log { client_ip = ip; client_port = decimal 0 (c ∷ port) }
unfolding store_peer store_port to_u32
store_peer-peer_of scheme ip c port log d small =
    rw
      (
        port-peer_of scheme ip (c ∷ port),
        stoi_digits c port d small,
        width (length scheme) (length ip),
        address-peer_of scheme ip (c ∷ port),
      )
      (ground (arith, small))
  where
    width : (a b : ℕ) → a + 1 + b - (a + 1) ≡ b
    width a b = omega arith

-- A peer `scheme:address:port` with no colon in its scheme and a port of decimal digits below
-- `2 ^ 31`: the entry gets the address, colons in it included, and the number that the port writes.
pub parse_context_info_lem :
    (scheme ip : Text) (c : ℕ) (port : Text) (log : LogEntry)
    → Without b':' scheme
    → AreDigits (c ∷ port)
    → decimal 0 (c ∷ port) < 2 ^ 31
    → parse_context_info (peer_of scheme ip (c ∷ port)) log ≡ record log {
      client_ip = ip;
      client_port = decimal 0 (c ∷ port);
      server_ip = codes "0.0.0.0";
      server_port = 9527;
    }
unfolding parse_context_info
parse_context_info_lem scheme ip c port log w d small =
    rw
      (
        split_peer-store_peer (peer_of scheme ip (c ∷ port)) (length scheme)
            (length scheme + 1 + length ip) _ (find-peer_of scheme ip (c ∷ port) w)
            (rfind-peer_of scheme ip (c ∷ port) (no_colon (c ∷ port) d)),
        store_peer-peer_of scheme ip c port
            (record log { client_ip = codes "0.0.0.0"; client_port = 0 }) d small,
      )
      refl
