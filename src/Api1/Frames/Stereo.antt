-- ===== src/Api1/Frames/Stereo.antt =====
-- src/main.cpp: what the messages of the camera leave in the buffer.
use project_viatech_ecids_co.Base.{
  ℕ, ◌≡◌, refl, Bool, true, false, ◌||◌, ◌⊎◌, inl, inr, String, str_eq, List, [], ◌∷◌, none, All,
  Text, if◌then◌else◌, arith, eq_iff, lookup, nat_eq,
}
use project_viatech_ecids_co.Common.Frames.{DataBundle}
use project_viatech_ecids_co.Data.Buffer.{
  DataBuffer, StereoPair, new_buffer, put, put_stereo, enqueue_inspection, enqueue_depth,
  try_get_stereo_pair,
}
use project_viatech_ecids_co.Data.Buffer.Sides.{
  IsUnready, try_get_stereo_pair-none, put_stereo-IsUnready,
}
use project_viatech_ecids_co.Api1.Subscriber.{HeaderJson, Deliveries, on_message}
use project_viatech_ecids_co.Api1.Subscriber.Names.{IsNamed, AreNamed, on_message-AreNamed}
use project_viatech_ecids_co.Api1.Frames.{is_frame_channel, buffer_frame}

-- A message: its channel, whether the processing is paused, and its parts.
abbrev pub Message : Type 0
Message = String × Bool × List (List ℕ)

one_of_two : (a b : Bool) → (a || b) ≡ true → (a ≡ true) ⊎ (b ≡ true)
one_of_two true b h = inl refl
one_of_two false b h = inr h

-- The channels of the frames are none of the sides.
not_side_of :
    (part name side : String)
    → str_eq "" side ≡ false
    → str_eq "stereo_image" side ≡ false
    → str_eq "visual_geometric_2d" side ≡ false
    → (part ≡ "") ⊎ (part ≡ name)
    → is_frame_channel name ≡ true
    → str_eq part side ≡ false
not_side_of part name side h0 h1 h2 (inl e) f = rw e h0
not_side_of part name side h0 h1 h2 (inr e) f =
    elim (one_of_two (str_eq name "stereo_image") (str_eq name "visual_geometric_2d") f) [
      | inl n ↦ rw e (rw ((eq_iff name "stereo_image").0 n) h1)
      | inr n ↦ rw e (rw ((eq_iff name "visual_geometric_2d").0 n) h2)
    ]

unready_buffer :
    (c : Bool) (b p : DataBuffer)
    → IsUnready b
    → (c ≡ true → IsUnready p)
    → IsUnready (if c then p else b)
unready_buffer true b p h k = k refl
unready_buffer false b p h k = h

begins : (capacity : ℕ) → IsUnready (new_buffer capacity)
unfolding lookup
begins capacity id = refl

module _ (begin : List (ℕ × StereoPair) → ℕ) where
  unfoldable pub deliver : Bool → DataBuffer → Deliveries → DataBuffer
  deliver paused b [] = b
  deliver paused b ((channel, bundle) ∷ ds) =
      deliver paused (buffer_frame begin paused b channel bundle) ds

  -- What was thrown ends the program, and with it the messages.
  unfoldable pub receive : HeaderJson → DataBuffer → List Message → DataBuffer
  unfolding on_message deliver
  receive js b [] = b
  receive js b ((channel, paused, parts) ∷ ms) = elim (on_message js channel parts) [
    | inl thrown ↦ b
    | inr ds ↦ receive js (deliver paused b ds) ms
  ]

  stereo_pairs-buffer_frame :
      (paused : Bool) (b : DataBuffer) (name : String) (bundle : DataBundle)
      → (buffer_frame begin paused b name bundle).stereo_pairs
        ≡ (if is_frame_channel name
            then put_stereo begin
                (put b name bundle)
                bundle.header.pair_id
                bundle.header.part
                bundle
            else put b name bundle).stereo_pairs
  unfolding buffer_frame enqueue_inspection enqueue_depth
  stereo_pairs-buffer_frame paused b name bundle = ground arith

  buffer_frame-IsUnready :
      (paused : Bool) (b : DataBuffer) (name : String) (bundle : DataBundle)
      → IsNamed (name, bundle)
      → IsUnready b
      → IsUnready (buffer_frame begin paused b name bundle)
  unfolding put
  buffer_frame-IsUnready paused b name bundle n h id =
      rw (stereo_pairs-buffer_frame paused b name bundle) (
        unready_buffer (is_frame_channel name) (put b name bundle)
          (put_stereo begin (put b name bundle) bundle.header.pair_id bundle.header.part bundle) h
          (λ f.
            put_stereo-IsUnready begin (put b name bundle) bundle.header.pair_id bundle.header.part
              bundle (not_side_of bundle.header.part name "left" refl refl refl n f)
              (not_side_of bundle.header.part name "right" refl refl refl n f) h)
          id)

  deliver-IsUnready :
      (ds : Deliveries) (paused : Bool) (b : DataBuffer)
      → All IsNamed ds
      → IsUnready b
      → IsUnready (deliver paused b ds)
  unfolding deliver
  deliver-IsUnready [] paused b n h = h
  deliver-IsUnready ((name, bundle) ∷ ds) paused b (n, ns) h =
      deliver-IsUnready ds paused (buffer_frame begin paused b name bundle) ns
        (buffer_frame-IsUnready paused b name bundle n h)

  unless_thrown :
      (r : Text ⊎ Deliveries) (paused : Bool) (b : DataBuffer) (rest : DataBuffer → DataBuffer)
      → AreNamed r
      → IsUnready b
      → ((c : DataBuffer) → IsUnready c → IsUnready (rest c))
      → IsUnready (elim r [ inl thrown ↦ b | inr ds ↦ rest (deliver paused b ds) ])
  unless_thrown (inl thrown) paused b rest n h k = h
  unless_thrown (inr ds) paused b rest n h k =
      k (deliver paused b ds) (deliver-IsUnready ds paused b n h)

  received-IsUnready :
      (js : HeaderJson) (ms : List Message) (b : DataBuffer)
      → IsUnready b
      → IsUnready (receive js b ms)
  unfolding receive
  received-IsUnready js [] b h = h
  received-IsUnready js ((channel, paused, parts) ∷ ms) b h =
      unless_thrown (on_message js channel parts) paused b (λ c. receive js c ms)
        (on_message-AreNamed js channel parts) h (λ c. received-IsUnready js ms c)

  -- Whatever messages the camera sends on whatever channels, no stereo pair of a buffer that began empty
  -- is ever complete: `try_get_stereo_pair` fails for every id and changes nothing.
  pub receive-no_pair :
      (js : HeaderJson) (capacity : ℕ) (ms : List Message) (id : ℕ)
      → let b = receive js (new_buffer capacity) ms in try_get_stereo_pair b id ≡ (none, b)
  receive-no_pair js capacity ms id =
      try_get_stereo_pair-none (receive js (new_buffer capacity) ms)
        (received-IsUnready js ms (new_buffer capacity) (begins capacity)) id
