-- ===== src/Tool/Handlers.antt =====
-- tool/odp/main.go: the commands for datapaths and vports, on a dpif that is open. (Opening and closing
-- it are those of System.antt.) `parse_uint` is strconv.ParseUint in base 10 with 32 bits, and
-- `decimal` the text of a number.
pub mod Lookup
use go_odp.Prelude.{ℕ, ◌%◌, ◌^◌, List, [], ◌∷◌, ◌++◌, Option, none, some, ltb, if◌then◌else◌, Error}
use go_odp.Dpif.{Dpif, DatapathHandle}
use go_odp.Datapath.{
  Datapath, Datapaths, create_datapath, is_datapath_name_already_exists_error, lookup_datapath,
  lookup_datapath_by_id, is_no_such_datapath_error, enumerate_datapaths, delete_datapath,
}
use go_odp.Vport.{
  Vport, VportSpec, simple, gre, vxlan, geneve, vport_name, type_name, new_netdev_vport_spec,
  new_internal_vport_spec, new_gre_vport_spec, new_vxlan_vport_spec, new_geneve_vport_spec,
}
use go_odp.Vport.Requests.{
  create_vport, lookup_vport_by_name, is_no_such_vport_error, enumerate_vports, delete_vport,
}
use go_odp.Tool.Talk.{
  Complaint, of_error, name_exists, no_datapath, no_port, port_too_large, Talk, say, complain, stop,
  print, then_talk, asking, exchanging,
}

-- `printErr("%s", err)`.
abbrev pub print_err : {A : Type 0} → Error → Talk A
print_err e = complain (of_error e)

-- addDatapath.
unfoldable pub add_new_datapath : Dpif → List ℕ → Talk (Unit {0})
add_new_datapath dpif name =
    asking (create_datapath dpif name) (λ dp. say tt)
      λ e.
        if is_datapath_name_already_exists_error e then complain (name_exists name) else print_err e

abbrev pub given_or : ℕ → Option ℕ → ℕ
given_or default_port none = default_port
given_or default_port (some n) = n

module _ (parse_uint : List ℕ → Option ℕ) where
  -- The second half of lookupDatapath.
  abbrev pub lookup_by_number : Dpif → List ℕ → Option ℕ → Talk (DatapathHandle × List ℕ)
  lookup_by_number dpif name none = complain (no_datapath name)
  lookup_by_number dpif name (some ifindex) =
      asking (lookup_datapath_by_id dpif ifindex) (λ dp. say (dp.handle, dp.name))
        λ e. if is_no_such_datapath_error e then complain (no_datapath name) else print_err e

  -- lookupDatapath: a nil handle is a message that was printed.
  unfoldable pub lookup_datapath_named : Dpif → List ℕ → Talk (DatapathHandle × List ℕ)
  lookup_datapath_named dpif name =
      asking (lookup_datapath dpif name) (λ dp. say (dp, name))
        λ e.
          if is_no_such_datapath_error e
          then lookup_by_number dpif name (parse_uint name)
          else print_err e

  unfoldable pub delete_named_datapath : Dpif → List ℕ → Talk (Unit {0})
  delete_named_datapath dpif name =
      then_talk (lookup_datapath_named dpif name)
        λ found. exchanging (delete_datapath found.0) (λ resp. say tt) print_err

  -- addVport, which the functions of the kinds call.
  unfoldable pub add_named_vport : Dpif → List ℕ → VportSpec → Talk (Unit {0})
  add_named_vport dpif dpname spec =
      then_talk (lookup_datapath_named dpif dpname)
        λ found. asking (create_vport found.0 spec) (λ id. say tt) print_err

  unfoldable pub add_netdev_vport : Dpif → List ℕ → List ℕ → Talk (Unit {0})
  add_netdev_vport dpif dpname name = add_named_vport dpif dpname (new_netdev_vport_spec name)

  unfoldable pub add_internal_vport : Dpif → List ℕ → List ℕ → Talk (Unit {0})
  add_internal_vport dpif dpname name = add_named_vport dpif dpname (new_internal_vport_spec name)

  unfoldable pub add_gre_vport : Dpif → List ℕ → List ℕ → Talk (Unit {0})
  add_gre_vport dpif dpname name = add_named_vport dpif dpname (new_gre_vport_spec name)

  -- The value of `--port`, or the default; the check comes before NewDpif.
  unfoldable pub add_udp_vport :
      Option ℕ → ℕ → (List ℕ → ℕ → VportSpec) → Dpif → List ℕ → List ℕ → Talk (Unit {0})
  add_udp_vport given default_port make_vport_spec dpif dpname name =
      let port = given_or default_port given in
      if ltb 65535 port
      then complain port_too_large
      else add_named_vport dpif dpname (make_vport_spec name (port % 2 ^ 16))

  unfoldable pub add_vxlan_vport : Option ℕ → Dpif → List ℕ → List ℕ → Talk (Unit {0})
  add_vxlan_vport given = add_udp_vport given 4789 new_vxlan_vport_spec

  unfoldable pub add_geneve_vport : Option ℕ → Dpif → List ℕ → List ℕ → Talk (Unit {0})
  add_geneve_vport given = add_udp_vport given 6081 new_geneve_vport_spec

unfoldable pub delete_named_vport : Dpif → List ℕ → Talk (Unit {0})
delete_named_vport dpif name =
    asking (lookup_vport_by_name dpif 0 name)
      (λ found.
        exchanging (delete_vport (record { dpif = dpif; ifindex = found.0 }) found.1.id)
          (λ resp. say tt) print_err)
      λ e. if is_no_such_vport_error e then complain (no_port name) else print_err e

module _ (decimal : ℕ → List ℕ) where
  -- ` --port=%d`.
  unfoldable pub port_option : VportSpec → List ℕ
  port_option (simple name typ shown) = []
  port_option (gre name) = []
  port_option (vxlan u) = 32 ∷ b'-' ∷ b'-' ∷ b'p' ∷ b'o' ∷ b'r' ∷ b't' ∷ b'=' ∷ decimal u.port
  port_option (geneve u) = 32 ∷ b'-' ∷ b'-' ∷ b'p' ∷ b'o' ∷ b'r' ∷ b't' ∷ b'=' ∷ decimal u.port

  -- printVport panics on a nil spec.
  abbrev pub print_spec : List ℕ → List ℕ → Option VportSpec → Talk (Unit {0})
  print_spec prefix dpname none = stop
  print_spec prefix dpname (some spec) = print (
      prefix
      ++ (type_name spec
          ++ (32 ∷ dpname ++ (32 ∷ vport_name spec ++ (port_option spec ++ (10 ∷ []))))))

  unfoldable pub print_vport : List ℕ → List ℕ → Vport → Talk (Unit {0})
  print_vport prefix dpname vport = print_spec prefix dpname vport.spec

  unfoldable pub print_each : List ℕ → List Vport → Talk (Unit {0})
  print_each dpname [] = say tt
  print_each dpname (vport ∷ vports) =
      then_talk (print_vport [] dpname vport) (λ _. print_each dpname vports)

  unfoldable pub print_vports : List ℕ → DatapathHandle → Talk (Unit {0})
  print_vports dpname dp = exchanging (enumerate_vports dp) (print_each dpname) print_err

  unfoldable pub print_all_vports : Datapaths → Talk (Unit {0})
  print_all_vports [] = say tt
  print_all_vports ((dpname, dp) ∷ dps) =
      then_talk (print_vports dpname dp) (λ _. print_all_vports dps)

  -- listVports: with no argument, the vports of all datapaths.
  unfoldable pub list_all_vports : (List ℕ → Option ℕ) → Dpif → Option (List ℕ) → Talk (Unit {0})
  list_all_vports parse_uint dpif none =
      exchanging (enumerate_datapaths dpif) print_all_vports print_err
  list_all_vports parse_uint dpif (some name) =
      then_talk (lookup_datapath_named parse_uint dpif name) λ found. print_vports found.1 found.0

  -- `%d: %s\n`. A DatapathID is negative where its bit pattern is large; `decimal` is that of int32.
  unfoldable pub print_datapaths : Datapaths → Talk (Unit {0})
  print_datapaths [] = say tt
  print_datapaths ((name, dp) ∷ dps) =
      then_talk (print (decimal dp.ifindex ++ (b':' ∷ 32 ∷ name ++ (10 ∷ []))))
        λ _. print_datapaths dps

  -- listDatapaths does not look at the error: the map is then nil.
  unfoldable pub list_all_datapaths : Dpif → Talk (Unit {0})
  list_all_datapaths dpif = exchanging (enumerate_datapaths dpif) print_datapaths (λ e. say tt)

  -- The methods of vportEventsConsumer.
  unfoldable pub print_event : List ℕ → Dpif → ℕ → Vport → Talk (Unit {0})
  print_event prefix dpif dpid vport =
      asking (lookup_datapath_by_id dpif dpid) (λ dp. print_vport prefix dp.name vport) print_err
