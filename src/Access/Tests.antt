-- ===== src/Access/Tests.antt =====
-- A peer of the server's log, and the theorem about peers at it.
use cccloud.Prelude.{arith, ◌≡◌}
use cccloud.Text.{codes}
use cccloud.Logger.{default_entry}
use cccloud.Access.{parse_context_info}
use cccloud.Text.Numbers.Digits.{decimal}
use cccloud.Access.Peer.{peer_of, parse_context_info_lem}

parse_context_info_lem_example :
    parse_context_info (peer_of (codes "ipv6") (codes "[::1]") (codes "5000")) (default_entry 7)
    ≡ record (default_entry 7) {
      client_ip = codes "[::1]";
      client_port = decimal 0 (codes "5000");
      server_ip = codes "0.0.0.0";
      server_port = 9527;
    }
unfolding decimal
parse_context_info_lem_example =
    parse_context_info_lem (codes "ipv6") (codes "[::1]") b'5' (codes "000") (default_entry 7)
      ((λ e. absurd (cc)), ((λ e. absurd (cc)), ((λ e. absurd (cc)), ((λ e. absurd (cc)), tt))))
      (omega arith) (omega arith)
