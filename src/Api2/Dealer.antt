-- ===== src/Api2/Dealer.antt =====
-- src/api2/DetectionDealer.cpp: what `poll_loop_` makes of a message, over a type `D` of doubles. A
-- message is the texts of its parts; the sockets are those of Sockets. The JSON library and `std::stod` are
-- arguments; a result on the left is what was thrown.
use project_viatech_ecids_co.Base.{
  ℕ, Bool, true, false, not, ◌&&◌, ◌⊎◌, inl, inr, String, List, [], ◌∷◌, ◌++◌, Option, none, some,
  Text, codes, if◌then◌else◌, is_empty, ◌==◌,
}
use project_viatech_ecids_co.Common.Json.{Json, then_}
use project_viatech_ecids_co.Common.Geometry.{Detection, DetectionResponse}
pub mod Coordinates
pub mod Sockets

-- What the code also asks of a JSON value.
pub record Messages : Type 1 where
  pub js : Json
  pub contains : js.J → String → Bool
  pub is_array : js.J → String → Bool  -- of a member that is there
  pub is_text : js.J → String → String → Bool  -- whether the member equals the text

-- `std::getline` by commas: no token is made after the last comma if nothing follows it.
unfoldable pub tokens : Text → Text → List Text
tokens acc [] = if is_empty acc then [] else acc ∷ []
tokens acc (c ∷ s) =
    let next = tokens [] s in
    let more = tokens (acc ++ c ∷ []) s in if b',' == c then acc ∷ next else more

pub data Received (D : Type 0) : Type 0 where
  reconnected : Received D
  delivered : DetectionResponse D → Received D

module _ {D : Type 0} (stod : Text → Text ⊎ D) where
  -- A token that is no number is passed over.
  unfoldable pub numbers : List Text → List D
  numbers [] = []
  numbers (t ∷ ts) = elim (stod t) [ inl what ↦ numbers ts | inr x ↦ x ∷ numbers ts ]

  unfoldable pub pair_up : List D → List (D × D)
  pair_up [] = []
  pair_up (x ∷ []) = []
  pair_up (x ∷ y ∷ rest) = (x, y) ∷ pair_up rest

  unfoldable pub parse_coordinates : Text → List (D × D)
  unfolding tokens numbers pair_up
  parse_coordinates coords = pair_up (numbers (tokens [] coords))

  module _ (m : Messages) where
    unfoldable pub parse_detection : m.js.J → Text ⊎ Detection D
    unfolding parse_coordinates
    parse_detection det = then_ (m.js.value det "LabelID" "") (λ label_id.
        then_ (m.js.value det "Confidence" "0.0") (λ confidence_text.
          then_ (stod (codes confidence_text)) (λ confidence.
            then_ (m.js.value det "FileName" "") (λ file_name.
              then_ (m.js.value det "TimestampStart" "") (λ ts_start.
                then_ (m.js.value det "TimestampEnd" "") (λ ts_end.
                  then_ (m.js.value det "Coordinates" "") (λ coords. inr (record {
                    label_id = label_id;
                    confidence = confidence;
                    file_name = file_name;
                    coordinates = parse_coordinates (codes coords);
                    ts_start = ts_start;
                    ts_end = ts_end;
                  }))))))))

    -- One detection that throws gives up the whole message.
    unfoldable pub parse_detections : List m.js.J → Text ⊎ List (Detection D)
    unfolding parse_detection
    parse_detections [] = inr []
    parse_detections (det ∷ dets) =
        then_ (parse_detection det) (λ x. then_ (parse_detections dets) (λ xs. inr (x ∷ xs)))

    -- `value` of a member by its first name, or else by its second.
    unfoldable pub value_or : m.js.J → String → String → Text ⊎ String
    value_or resp key other =
        then_ (m.js.value resp other "") (λ default. m.js.value resp key default)

    unfoldable pub respond : DetectionResponse D → List m.js.J → Text ⊎ Received D
    unfolding parse_detections
    respond dr result_array =
        then_ (parse_detections result_array)
          (λ results. inr (delivered (record dr { results = results })))

    -- The second part of a message: a reconnection, or the results with their own transaction id.
    unfoldable pub from_body : DetectionResponse D → m.js.J → Text ⊎ Received D
    unfolding respond
    from_body dr body =
        if m.contains body "Type" && m.is_text body "Type" "Reconnect"
        then inr reconnected
        else then_
            (if m.contains body "TransactionID"
              then m.js.value body "TransactionID" dr.transaction_id
              else inr dr.transaction_id)
            (λ transaction_id.
              respond (record dr { transaction_id = transaction_id }) (m.js.items body "Result"))

    unfoldable pub header_of : m.js.J → Text ⊎ DetectionResponse D
    unfolding value_or
    header_of resp = then_ (value_or resp "TransactionID" "transaction_id") (λ transaction_id.
        then_ (value_or resp "DealerID" "dealer_id") (λ dealer_id.
          then_ (m.js.value resp "TimestampReceived" "") (λ ts_received.
            then_ (m.js.value resp "TimestampReplied" "") (λ ts_replied. inr (record {
              transaction_id = transaction_id;
              dealer_id = dealer_id;
              results = [];
              ts_received = ts_received;
              ts_replied = ts_replied;
            })))))

    unfoldable pub from_parts : m.js.J → DetectionResponse D → List String → Text ⊎ Received D
    unfolding respond from_body
    from_parts resp dr parts =
        if m.contains resp "Result" && m.is_array resp "Result"
        then respond dr (m.js.items resp "Result")
        else second parts
      where
        second : List String → Text ⊎ Received D
        second [] = respond dr []
        second (body_str ∷ more) = then_ (m.js.parse body_str) (λ body. from_body dr body)

    -- A message of at least one part.
    unfoldable pub on_message : String → List String → Text ⊎ Received D
    unfolding header_of from_parts
    on_message hdr_str more_parts =
        then_ (m.js.parse hdr_str)
          (λ resp. then_ (header_of resp) (λ dr. from_parts resp dr more_parts))
