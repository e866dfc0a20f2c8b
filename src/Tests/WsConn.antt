-- ===== src/Tests/WsConn.antt =====
-- pkg/yamuxws/yamuxws.go: two ends of a connection of messages.
use mini_shellhub.Prelude.{Text, [], ◌∷◌, ◌++◌, ◌≡◌, refl, some, ok, true, false, codes}
use mathlib.Core.List.{flatten}
use mini_shellhub.WsConn.{WsConn, Message, new_ws_conn, read}
use mini_shellhub.WsConn.Frames.{Frames, frames}
use mini_shellhub.WsConn.Stream.{unread, read_all, write_all, write_all-read_all}
use mini_shellhub.WsConn.{write}

abbrev silent : Frames
silent = record { sent = []; current = []; queue = [] }

abbrev message : Text → Message
message b = record { is_binary = true; payload = b }

abbrev sending : WsConn Frames
sending = record {
  conn = record {
    sent = message (codes "ping") ∷ message (codes "pong") ∷ [];
    current = [];
    queue = [];
  };
  has_reader = false;
}

abbrev receiving : Frames
receiving = record { sent = []; current = []; queue = sending.conn.sent }

abbrev received : WsConn Frames
received = record {
  conn = record { sent = []; current = codes "ng"; queue = [] };
  has_reader = true;
}

sends :
    write_all frames (codes "ping" ∷ codes "pong" ∷ []) (new_ws_conn frames silent) ≡ some sending
unfolding write_all write new_ws_conn
sends = refl

reads :
    read_all frames (4 ∷ 2 ∷ []) (new_ws_conn frames receiving) ≡ (received, ok (codes "pingpo"))
unfolding read_all read new_ws_conn
reads = refl

write_all-read_all_example :
    flatten (codes "ping" ∷ codes "pong" ∷ []) ≡ codes "pingpo" ++ unread frames received
write_all-read_all_example =
    write_all-read_all frames frames (codes "ping" ∷ codes "pong" ∷ []) (4 ∷ 2 ∷ []) silent
      receiving sending received (codes "pingpo") refl sends refl reads
