-- ===== src/Codec/Frame.antt =====
-- frame_codec.go and payload_codec.go: frames, their constants, and the constructors of the frames
-- that the server sends. Types of frames and of payloads are uint8 with named values, as in the
-- source: the codec lets any value through.
use sdim.Base.{
  ℕ, ◌+◌, ◌%◌, ◌^◌, List, [], ◌∷◌, length, Option, none, some, ◌==◌, if◌then◌else◌, String,
}

pub data CodecError : Type 0 where
  invalid_frame frame_too_large incomplete_frame invalid_magic version_un_support : CodecError
  checksum_failed : CodecError
  io_err : ℕ → CodecError

abbrev pub ping : ℕ
ping = 1

abbrev pub pong : ℕ
pong = 2

abbrev pub conn : ℕ
conn = 3

abbrev pub conn_ack : ℕ
conn_ack = 4

abbrev pub send : ℕ
send = 5

abbrev pub send_ack : ℕ
send_ack = 6

abbrev pub forward : ℕ
forward = 7

abbrev pub forward_ack : ℕ
forward_ack = 8

abbrev pub conv_update : ℕ
conv_update = 9

abbrev pub notify : ℕ
notify = 10

abbrev pub json_payload : ℕ
json_payload = 1

abbrev pub header_frame_size : ℕ
header_frame_size = 12

abbrev pub max_payload_size : ℕ
max_payload_size = 2 ^ 20

abbrev pub magic_number : ℕ
magic_number = 0xcafe

abbrev pub version : ℕ
version = 1

abbrev pub req_id_size : ℕ
req_id_size = 16

pub record FrameHeader : Type 0 where
  pub magic : ℕ
  pub version : ℕ
  pub ftype : ℕ
  pub payload_len : ℕ
  pub check_sum : ℕ

-- `req_id` is a Go array of 16 bytes; `IsWire` of Codec.Roundtrip says so.
pub record Payload : Type 0 where
  pub payload_protocol : ℕ
  pub req_id : List ℕ
  pub body : List ℕ

pub record Frame : Type 0 where
  pub header : FrameHeader
  pub payload : Payload

-- A Go zero value.
abbrev pub zero_req_id : List ℕ
zero_req_id = 0 ∷ 0 ∷ 0 ∷ 0 ∷ 0 ∷ 0 ∷ 0 ∷ 0 ∷ 0 ∷ 0 ∷ 0 ∷ 0 ∷ 0 ∷ 0 ∷ 0 ∷ 0 ∷ []

abbrev pub empty_payload : Payload
empty_payload = record { payload_protocol = 0; req_id = zero_req_id; body = [] }

-- `pong` in ASCII.
abbrev pub pong_bytes : List ℕ
pong_bytes = 0x70 ∷ 0x6f ∷ 0x6e ∷ 0x67 ∷ []

unfoldable pub new_s2c_frame_of : ℕ → ℕ → List ℕ → List ℕ → Frame
new_s2c_frame_of pp ft req_id body = record {
  header = record {
    magic = magic_number;
    version = version;
    ftype = ft;
    payload_len = (1 + req_id_size + length body) % 2 ^ 32;
    check_sum = 0;
  };
  payload = record { payload_protocol = pp; req_id = req_id; body = body };
}

unfoldable pub new_pong_frame : Payload → Frame
unfolding new_s2c_frame_of
new_pong_frame pl = new_s2c_frame_of pl.payload_protocol pong pl.req_id pong_bytes

unfoldable pub new_conv_update_frame : List ℕ → Frame
unfolding new_s2c_frame_of
new_conv_update_frame bodies = new_s2c_frame_of json_payload conv_update zero_req_id bodies

unfoldable pub new_notify_frame : List ℕ → Frame
unfolding new_s2c_frame_of
new_notify_frame bodies = new_s2c_frame_of json_payload notify zero_req_id bodies

-- `parse` is uuid.Parse of github.com/google/uuid; an id that it refuses becomes the zero id.
unfoldable pub new_forward_frame : (String → Option (List ℕ)) → String → List ℕ → Frame
unfolding new_s2c_frame_of
new_forward_frame parse req_id bodies = elim (parse req_id) [
  | none ↦ new_s2c_frame_of json_payload forward zero_req_id bodies
  | some id ↦ new_s2c_frame_of json_payload forward id bodies
]

-- A payload codec, by the formatter of the JSON library. A payload of another protocol panics.
pub data Coded {ℓ} (A : Type ℓ) : Type ℓ where
  coded : A → Coded A
  code_err : Coded A
  panics : Coded A

-- `fmt` is json.Fmt of the body.
unfoldable pub encode_payload {ℓ} :
    {B : Type ℓ} → (B → Option (List ℕ)) → Payload → B → Coded Payload
encode_payload fmt pl body =
    if pl.payload_protocol == json_payload
    then (elim (fmt body) [ none ↦ code_err | some bodies ↦ coded (record pl { body = bodies }) ])
    else panics

-- `parse` is json.Parse of the bytes, into the type that the caller asks for.
unfoldable pub decode_payload {ℓ} : {B : Type ℓ} → (List ℕ → Option B) → Payload → Coded B
decode_payload parse pl =
    if pl.payload_protocol == json_payload
    then (elim (parse pl.body) [ none ↦ code_err | some val ↦ coded val ])
    else panics

unfoldable pub new_s2c_frame {ℓ} :
    {B : Type ℓ} → (B → Option (List ℕ)) → Payload → ℕ → B → Coded Frame
unfolding new_s2c_frame_of encode_payload
new_s2c_frame fmt from ft body = elim (encode_payload fmt from body) [
  | code_err ↦ code_err
  | panics ↦ panics
  | coded pl ↦ coded (new_s2c_frame_of pl.payload_protocol ft pl.req_id pl.body)
]
