-- ===== src/Prelude/Results.antt =====
-- How a call of the program ends.
use Prim.Native.Nat.{ℕ}
use mathlib.Core.List.{List}

-- The error values of the program: a constructor for each kind of `fmt.Errorf` in the code that is
-- modelled, with values that the text shows, and `netlink_error` for a NetlinkError. (An error of net or
-- encoding/hex is that of the text which they refuse.)
pub data Error : Type 0 where
  netlink_error : ℕ → Error
  message_truncated : Error
  header_truncated : Error
  length_exceeds : ℕ → ℕ → Error
  wrong_port_id : ℕ → ℕ → Error
  wrong_type : ℕ → ℕ → Error
  wrong_cmd : ℕ → Error
  missing_attribute : ℕ → Error
  wrong_length : ℕ → ℕ → Error
  not_terminated : ℕ → Error
  truncated_object : ℕ → ℕ → Error
  mask_without_value : ℕ → Error
  exact_mask : ℕ → Error
  unknown_action : ℕ → Error
  wrong_datapath : Error
  message_missing : Error
  system_error : ℕ → Error
  wrong_peer : ℕ → ℕ → Error
  not_netlink : Error
  unsupported_vport : ℕ → Error
  no_mc_group : ℕ → Error
  family_unavailable : List ℕ → Error
  invalid_mac : List ℕ → Error
  invalid_ipv4 : List ℕ → Error
  invalid_tunnel_id : List ℕ → Error
  not_boolean : List ℕ → Error
  mask_included : Error

-- A value, a returned error, a run-time panic, a read of memory outside the allocated array (whose
-- result Go leaves open), or, which is no Go value, the model's fuel running out.
pub data Result {ℓ} (A : Type ℓ) : Type ℓ where
  ok : A → Result A
  err : Error → Result A
  panic wild out_of_fuel : Result A

-- The rest of a call behind one that returned a value; every other end is passed on.
infixl 5 ◌>>=◌ ◌>>◌
abbrev pub ◌>>=◌ {ℓ κ} : {V : Type ℓ} {W : Type κ} → Result V → (V → Result W) → Result W
ok v >>= next = next v
err failure >>= next = err failure
panic >>= next = panic
wild >>= next = wild
out_of_fuel >>= next = out_of_fuel

-- Behind a check.
abbrev pub ◌>>◌ {κ} : {W : Type κ} → Result (Unit {0}) → Result W → Result W
ok done >> next = next
err failure >> next = err failure
panic >> next = panic
wild >> next = wild
out_of_fuel >> next = out_of_fuel
