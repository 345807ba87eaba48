-- ===== src/Tool/Handlers/Lookup.antt =====
-- lookupDatapath against the messages that a kernel sends.
use go_odp.Prelude.{ℕ, ◌≡◌, refl, ap, ◌∙◌, List, [], Option, some, ok, if◌then◌else◌, arith}
use go_odp.Builder.{put_string_attr}
use go_odp.Session.{Received}
use go_odp.Session.Packets.{Message}
use go_odp.Session.Responses.{IsErrorMessage}
use go_odp.Dpif.{Dpif}
use go_odp.Dpif.Exchange.{answered}
use go_odp.Dpif.Messages.{OvsMessage, message_of}
use go_odp.Dpif.Asks.{Gets, datagram_rest, ask-reply, ask-error}
use go_odp.Family.{socket_behind}
use go_odp.Datapath.{
  datapath_request, lookup_datapath, lookup_datapath_by_id, is_no_such_datapath_error,
}
use go_odp.Datapath.Calls.{IsDatapathMessage, parse_datapath_info-message}
use go_odp.Tool.Talk.{Console, done, complained, no_datapath, say, complain, behind, with_answer}
use go_odp.Tool.Handlers.{print_err, lookup_by_number, lookup_datapath_named}

module _ (parse_uint : List ℕ → Option ℕ) (dpif : Dpif) (name : List ℕ) (c : Console) where
  -- The kernel knows no datapath of the name.
  lookup_datapath_named-unknown :
      (m : Message) (ms : List Message) (spare : ℕ) (rest : List Received)
      → Gets c.sock m ms spare rest
      → IsErrorMessage 19 m
      → lookup_datapath_named parse_uint dpif name c
        ≡ lookup_by_number parse_uint dpif name (parse_uint name) (behind c rest)
  unfolding lookup_datapath_named lookup_datapath is_no_such_datapath_error
  lookup_datapath_named-unknown m ms spare rest arrives failure =
      ap
        (with_answer (λ dp. say (dp, name))
          (λ e.
            if is_no_such_datapath_error e
            then lookup_by_number parse_uint dpif name (parse_uint name)
            else print_err e)
          c)
        (ask-error c.sock (put_string_attr 1 name (datapath_request dpif 9 3 0)) _ m ms spare rest
          19 arrives failure (omega arith))

  by_id-reply :
      (n : ℕ) (m : OvsMessage) (ms : List Message) (spare : ℕ) (rest : List Received)
      (found : List ℕ)
      → Gets c.sock (message_of m) ms spare rest
      → IsDatapathMessage dpif 3 m found
      → (lookup_datapath_by_id dpif n c.sock).1
        ≡ answered (ok (record { handle = record { dpif = dpif; ifindex = n }; name = found })) rest
  unfolding lookup_datapath_by_id
  by_id-reply n m ms spare rest found arrives got =
      ask-reply c.sock (datapath_request dpif 9 3 n) _ (message_of m) ms spare rest arrives
        got.no_error
      ∙ rw
          (parse_datapath_info-message dpif 3 [] m (datagram_rest (message_of m) ms spare) found got
            refl)
          refl

  by_number-known :
      (n : ℕ) (m : OvsMessage) (ms : List Message) (spare : ℕ) (rest : List Received)
      (found : List ℕ)
      → Gets c.sock (message_of m) ms spare rest
      → IsDatapathMessage dpif 3 m found
      → lookup_by_number parse_uint dpif name (some n) c
        ≡ (done (record { dpif = dpif; ifindex = n }, found), behind c rest)
  by_number-known n m ms spare rest found arrives got =
      ap
        (with_answer (λ dp. say (dp.handle, dp.name))
          (λ e. if is_no_such_datapath_error e then complain (no_datapath name) else print_err e) c)
        (by_id-reply n m ms spare rest found arrives got)

  by_number-unknown :
      (n : ℕ) (m : Message) (ms : List Message) (spare : ℕ) (rest : List Received)
      → Gets c.sock m ms spare rest
      → IsErrorMessage 19 m
      → lookup_by_number parse_uint dpif name (some n) c
        ≡ (complained (no_datapath name), behind c rest)
  unfolding lookup_datapath_by_id is_no_such_datapath_error
  by_number-unknown n m ms spare rest arrives failure =
      ap
        (with_answer (λ dp. say (dp.handle, dp.name))
          (λ e. if is_no_such_datapath_error e then complain (no_datapath name) else print_err e) c)
        (ask-error c.sock (datapath_request dpif 9 3 n) _ m ms spare rest 19 arrives failure
          (omega arith))

module _ (parse_uint : List ℕ → Option ℕ) (dpif : Dpif) (name : List ℕ) (c : Console) (n : ℕ)
    (m : Message) (ms : List Message) (spare : ℕ) (rest : List Received) where
  -- Where the kernel answers the lookup of the name with ENODEV, the name is a number, and the second
  -- request is answered by a datapath, lookupDatapath returns a handle of that number and the
  -- datapath's name, has printed nothing, and has sent and received no more than these two.
  pub lookup_datapath_named-by_number :
      (reply : OvsMessage) (more : List Message) (room : ℕ) (others : List Received)
      (found : List ℕ)
      → Gets c.sock m ms spare rest
      → IsErrorMessage 19 m
      → parse_uint name ≡ some n
      → Gets (socket_behind c.sock rest) (message_of reply) more room others
      → IsDatapathMessage dpif 3 reply found
      → lookup_datapath_named parse_uint dpif name c
        ≡ (done (record { dpif = dpif; ifindex = n }, found), behind (behind c rest) others)
  lookup_datapath_named-by_number reply more room others found first unknown number second got =
      lookup_datapath_named-unknown parse_uint dpif name c m ms spare rest first unknown
      ∙ ap (λ (p : Option ℕ). lookup_by_number parse_uint dpif name p (behind c rest)) number
      ∙ by_number-known parse_uint dpif name (behind c rest) n reply more room others found second
          got

  -- Where it answers both with ENODEV, the message is that there is no such datapath.
  pub lookup_datapath_named-missing :
      (reply : Message) (more : List Message) (room : ℕ) (others : List Received)
      → Gets c.sock m ms spare rest
      → IsErrorMessage 19 m
      → parse_uint name ≡ some n
      → Gets (socket_behind c.sock rest) reply more room others
      → IsErrorMessage 19 reply
      → lookup_datapath_named parse_uint dpif name c
        ≡ (complained (no_datapath name), behind (behind c rest) others)
  lookup_datapath_named-missing reply more room others first unknown number second got =
      lookup_datapath_named-unknown parse_uint dpif name c m ms spare rest first unknown
      ∙ ap (λ (p : Option ℕ). lookup_by_number parse_uint dpif name p (behind c rest)) number
      ∙ by_number-unknown parse_uint dpif name (behind c rest) n reply more room others second got
