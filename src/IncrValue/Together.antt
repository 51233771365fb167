-- ===== src/IncrValue/Together.antt =====
-- incr_value and the server together: the requests of the one are the lines that the other reads, and the
-- answers of the other are the lines that the one reads.
use computer_systems_assignm.Prelude.{
  ℕ, ◌≡◌, ◌≢◌, ◌∙◌, Bool, true, false, [], ◌∷◌, Option, none, some, arith, if◌then◌else◌,
}
use computer_systems_assignm.Prelude.Int.{ℤ}
use computer_systems_assignm.Exceptions.{ok}
use computer_systems_assignm.Text.{Bytes, bytes_eq}
use computer_systems_assignm.Table
use computer_systems_assignm.Table.{Table}
use computer_systems_assignm.Table.Entries.{committed, IsSettled, commit-set_all}
use computer_systems_assignm.Server.{Server}
use computer_systems_assignm.Connection.State.{connected, State}
use computer_systems_assignm.Connection.Chat.{chat_with_client}
use computer_systems_assignm.Connection.Values.{with_table-there}
use computer_systems_assignm.Client.Answers.{
  lines, Requests, texts, ok_texts, Conversation-ok_texts,
}
use computer_systems_assignm.IncrValue.{incr_value}
use computer_systems_assignm.IncrValue.Session.{session, incr_value-Session}
use computer_systems_assignm.IncrValue.OnServer.{
  HasInt, next_value, new_content, incremented, chat_with_client-alone,
}
use computer_systems_assignm.IncrValue.InTransaction.{chat_with_client-transaction}

module _ (server : Server) (tables : ℕ → Option Table) (next client : ℕ) (username name key : Bytes)
    (n : ℤ) (h : HasInt server tables name key n) where
  abbrev next_int : Bytes
  next_int = next_value server tables next client username name key n h

  chat_with_client-run :
      (use_transaction : Bool) (r : Requests (session use_transaction username name key))
      → chat_with_client
          (lines (texts (session use_transaction username name key) r))
          (connected server tables next client)
        ≡ (ok tt, incremented server tables next client username name key n h use_transaction)
  chat_with_client-run false r =
      chat_with_client-alone server tables next client username name key n h r
  chat_with_client-run true r =
      chat_with_client-transaction server tables next client username name key n h r

  incr_value-run :
      (use_transaction : Bool) (r : Requests (session use_transaction username name key))
      → let ms = session use_transaction username name key in
        incr_value use_transaction username name key
          (record { replies = lines (ok_texts ms); sent = []; printed = [] })
        ≡ (ok 0, record { replies = []; sent = texts ms r; printed = [] })
  incr_value-run use_transaction r =
      (incr_value-Session use_transaction username name key _ _).1
        (Conversation-ok_texts (session use_transaction username name key) r [] [])

  one_write :
      (value other : Bytes)
      → let t' = Table.commit_changes (Table.set key value h.table) in
        committed t' other ≡ (if bytes_eq key other then some value else committed h.table other)
  one_write value other =
      (commit-set_all ((key, value) ∷ []) h.table h.settled).0 other ∙ ground arith

  still_free : (new_content server tables next client username name key n h).mutex ≡ none
  unfolding Table.commit_changes Table.set
  still_free = h.free

  -- Let the server have a table with an int under the key, to which 1 can be added, and the table be unlocked;
  -- let a client connect, and the requests of incr_value, with or without `-t`, fit into lines. Then the server
  -- answers all of them and returns from chat_with_client; incr_value reads the answers and ends with the exit
  -- status 0; the committed value under the key is the next int, and the other keys and the other tables have
  -- what they had; the table is unlocked, and settled again.
  pub incr_value-chat_with_client :
      (use_transaction : Bool) (r : Requests (session use_transaction username name key))
      → let requests = texts (session use_transaction username name key) r in
        (s' : State) × (chat_with_client (lines requests) (connected server tables next client)
          ≡ (ok tt, s'))
        × (incr_value use_transaction username name key
              (record { replies = lines s'.conn.sent; sent = []; printed = [] })
            ≡ (ok 0, record { replies = []; sent = requests; printed = [] }))
        × ((t' : Table) × (s'.tables h.pointer ≡ some t')
            × ((other : Bytes)
                → committed t' other
                  ≡ (if bytes_eq key other then some next_int else committed h.table other))
            × (t'.mutex ≡ none)
            × IsSettled t')
        × ((q : ℕ) → q ≢ h.pointer → s'.tables q ≡ tables q)
  incr_value-chat_with_client use_transaction r = (
    incremented server tables next client username name key n h use_transaction,
    chat_with_client-run use_transaction r,
    incr_value-run use_transaction r,
    (
      new_content server tables next client username name key n h,
      with_table-there (connected server tables next client) h.pointer
          (new_content server tables next client username name key n h),
      one_write next_int,
      still_free,
      (commit-set_all ((key, next_int) ∷ []) h.table h.settled).1,
    ),
    λ q other. ground arith,
  )
