-- ===== src/Topic/AnswerExamples.antt =====
-- The RPC handler on a bullet comment.
use sdim.Topic.Examples.{world, services, to_bob}
use sdim.Topic.Requests.{
  handle_msg_coming, coming_with, coming_of, msg_coming_result_to, msg_coming_param_from,
  is_valid_conv_type, is_danmaku_type, came,
}
use sdim.Topic.Accepted.{Accounted, handle_msg_coming-Accounted}
use sdim.Handler.Types.{MsgComingReq}
use sdim.Base.Ints.{pos}
use sdim.Topic.Incoming.{conv_id_of, on_msg_coming}
use sdim.Base.{◌≡◌, refl}

abbrev bullet : MsgComingReq
bullet = record {
  conv_id = "room";
  sender = "ann";
  receiver = "bob";
  chat_type = 4;
  ttl = pos 0;
  client_unique_id = "u9";
  msg_content = to_bob.msg_content;
}

handle_msg_coming-Accounted_example :
    Accounted bullet world (handle_msg_coming services bullet "r" 50 11 0 world)
handle_msg_coming-Accounted_example = handle_msg_coming-Accounted bullet world services "r" 50 11 0

-- A bullet comment is answered with a success.
bullet_answered :
    (handle_msg_coming services bullet "r" 50 11 0 world).1
    ≡ came (record {
      msg_id = 50;
      client_unique_id = "u9";
      conv_id = "room";
      msg_seq = 0;
      send_ts = 11;
    })
unfolding handle_msg_coming coming_with on_msg_coming coming_of msg_coming_result_to
    msg_coming_param_from conv_id_of is_valid_conv_type is_danmaku_type
bullet_answered = refl
