-- ===== src/Tool/Printing/Names.antt =====
-- tool/odp/main.go: the names of the options for tunnels.
use go_odp.Prelude.{ℕ, List, [], ◌∷◌}

abbrev pub tunnel_prefix : List ℕ
tunnel_prefix = b't' ∷ b'u' ∷ b'n' ∷ b'n' ∷ b'e' ∷ b'l' ∷ b'-' ∷ []

abbrev pub set_tunnel_prefix : List ℕ
set_tunnel_prefix = b's' ∷ b'e' ∷ b't' ∷ b'-' ∷ b't' ∷ b'u' ∷ b'n' ∷ b'n' ∷ b'e' ∷ b'l' ∷ b'-' ∷ []

abbrev pub id_name : List ℕ
id_name = b'i' ∷ b'd' ∷ []

abbrev pub ipv4_src_name : List ℕ
ipv4_src_name = b'i' ∷ b'p' ∷ b'v' ∷ b'4' ∷ b'-' ∷ b's' ∷ b'r' ∷ b'c' ∷ []

abbrev pub ipv4_dst_name : List ℕ
ipv4_dst_name = b'i' ∷ b'p' ∷ b'v' ∷ b'4' ∷ b'-' ∷ b'd' ∷ b's' ∷ b't' ∷ []

abbrev pub tos_name : List ℕ
tos_name = b't' ∷ b'o' ∷ b's' ∷ []

abbrev pub ttl_name : List ℕ
ttl_name = b't' ∷ b't' ∷ b'l' ∷ []

abbrev pub df_name : List ℕ
df_name = b'd' ∷ b'f' ∷ []

abbrev pub csum_name : List ℕ
csum_name = b'c' ∷ b's' ∷ b'u' ∷ b'm' ∷ []

abbrev pub tp_src_name : List ℕ
tp_src_name = b't' ∷ b'p' ∷ b'-' ∷ b's' ∷ b'r' ∷ b'c' ∷ []

abbrev pub tp_dst_name : List ℕ
tp_dst_name = b't' ∷ b'p' ∷ b'-' ∷ b'd' ∷ b's' ∷ b't' ∷ []

abbrev pub true_text : List ℕ
true_text = b't' ∷ b'r' ∷ b'u' ∷ b'e' ∷ []

abbrev pub false_text : List ℕ
false_text = b'f' ∷ b'a' ∷ b'l' ∷ b's' ∷ b'e' ∷ []
