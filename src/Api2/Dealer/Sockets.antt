-- ===== src/Api2/Dealer/Sockets.antt =====
-- src/api2/DetectionDealer.cpp: `start` and `stop` with the sockets, and the requests that go out. What the
-- message library answers is given, and how many of its sockets are open is kept with the state.
pub mod Open
use project_viatech_ecids_co.Base.{
  ℕ, suc, ◌+◌, ◌-◌, Bool, true, false, not, String, List, [], ◌∷◌, ◌++◌, Text, codes, if◌then◌else◌,
  length, take,
}
use project_viatech_ecids_co.Common.Json.{JsonBuilder}

-- `pub_sock` and `sub_sock` tell whether the pointers are set, and the counts are the library's.
pub record DetectionDealer : Type 0 where
  pub running : Bool
  pub pub_sock : Bool
  pub sub_sock : Bool
  pub pub_open : ℕ
  pub sub_open : ℕ

-- What the calls of one `start` give.
pub record Library : Type 0 where
  pub makes_pub : Bool
  pub binds : Bool
  pub makes_sub : Bool
  pub connects : Bool

abbrev pub new_dealer : DetectionDealer
new_dealer = record {
  running = false;
  pub_sock = false;
  sub_sock = false;
  pub_open = 0;
  sub_open = 0;
}

abbrev close_pub : DetectionDealer → DetectionDealer
close_pub d = record d { pub_sock = false; pub_open = d.pub_open - 1 }

abbrev close_sub : DetectionDealer → DetectionDealer
close_sub d = record d { sub_sock = false; sub_open = d.sub_open - 1 }

-- From the SUB socket on.
abbrev start_sub : Library → DetectionDealer → DetectionDealer
start_sub lib d =
    if not lib.makes_sub
    then close_pub (record d { sub_sock = false })
    else (let e = record d { sub_sock = true; sub_open = d.sub_open + 1 } in
        if not lib.connects then close_sub (close_pub e) else record e { running = true })

unfoldable pub start : Library → DetectionDealer → DetectionDealer
start lib d =
    if d.running
    then d
    else if not lib.makes_pub
    then record d { pub_sock = false }
    else (let e = record d { pub_sock = true; pub_open = d.pub_open + 1 } in
        if not lib.binds then close_pub e else start_sub lib e)

unfoldable pub stop : DetectionDealer → DetectionDealer
stop d =
    if not d.running
    then d
    else (let e = record d { running = false } in
        let f = if e.pub_sock then close_pub e else e in if f.sub_sock then close_sub f else f)

pub data Call : Type 0 where
  starts : Library → Call
  stops : Call

unfoldable pub run : DetectionDealer → List Call → DetectionDealer
unfolding start stop
run d [] = d
run d (starts lib ∷ cs) = run (start lib d) cs
run d (stops ∷ cs) = run (stop d) cs

module _ {D : Type 0} (b : JsonBuilder D) where
  -- The images and their names, where there is one.
  abbrev file_items : List String → List String → List b.J
  file_items [] names = []
  file_items (uri ∷ uris) names = file_item uri names ∷ file_items uris (rest names)
    where
      name_of : List String → String
      name_of [] = ""
      name_of (n ∷ ns) = n

      rest : List String → List String
      rest [] = []
      rest (n ∷ ns) = ns

      file_item : String → List String → b.J
      file_item u ns = b.object (
          ("URI", b.of_string u)
          ∷ ("FileName", b.of_string (name_of ns))
          ∷ ("Resolution", b.of_string "1920,1080")
          ∷ ("Format", b.of_string "Mono")
          ∷ [])

  -- What goes out: the parts of a message, if there is a socket. `now` is `Timestamp::now_string()`.
  unfoldable pub send_file_request :
      DetectionDealer → String → Text → String → List String → List String → List (List (List ℕ))
  send_file_request d identity now transaction_id image_uris filenames =
      if not d.pub_sock
      then []
      else (b.dump (
            b.object (
              ("TransactionID", b.of_string transaction_id)
              ∷ ("Mode", b.of_string "File")
              ∷ ("DealerID", b.of_string identity)
              ∷ ("Timestamp", b.of_text (take 15 now))
              ∷ ("Data", b.array (file_items image_uris filenames))
              ∷ []))
          ∷ [])
        ∷ []

  -- The bytes of the right image are not used.
  unfoldable pub send_binary_request :
      DetectionDealer → String → Text → String → List ℕ → List ℕ → List (List (List ℕ))
  send_binary_request d identity now transaction_id left_data right_data =
      if not d.pub_sock
      then []
      else (b.dump (
            b.object (
              ("TransactionID", b.of_string transaction_id)
              ∷ ("Mode", b.of_string "Binary")
              ∷ ("DealerID", b.of_string identity)
              ∷ ("Timestamp", b.of_text (take 15 now))
              ∷ ("ImageCount", b.of_int 1)
              ∷ ("Format", b.of_string "BGRA")
              ∷ (
                "Parts",
                b.array (
                    b.object (
                      ("Index", b.of_int 0)
                      ∷ ("Part", b.of_string "left")
                      ∷ ("Resolution", b.of_string "1920,1080")
                      ∷ ("Format", b.of_string "BGRA")
                      ∷ ("Size", b.of_int (length left_data))
                      ∷ [])
                    ∷ []),
              )
              ∷ (
                "Data",
                b.array (
                    b.object (
                      ("FileName", b.of_string "L.bgra")
                      ∷ ("Format", b.of_string "BGRA")
                      ∷ ("Resolution", b.of_string "1920,1080")
                      ∷ [])
                    ∷ []),
              )
              ∷ []))
          ∷ left_data
          ∷ [])
        ∷ []
