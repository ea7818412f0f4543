-- ===== src/Syslog/Connections.antt =====
-- A connection that carries lines of RFC 3164: what `runConn` hands to its receiver.
use cypress.Base.{ℕ, ◌^◌, ◌<◌, ◌≡◌, ◌≢◌, Option, List, [], ◌∷◌, ◌++◌, length}
use cypress.Base.Text.{Without, Text, codes}
use cypress.Base.Int.{pos}
use cypress.Base.Results.{ok}
use cypress.Message.Types.{Message}
use cypress.Syslog.Lines.{IsStamp, line_text, line_message}

-- What a sender fills a line with, and the message that it stands for.
pub record LogLine (T : Type 0) : Type 0 where
  pub prio : ℕ
  pub pid : ℕ
  pub c : ℕ
  pub d : ℕ
  pub stamp : Text
  pub host : Text
  pub tag : Text
  pub msg : Text
  pub ts : T
  pub m : Message T

abbrev pub text_of : {T : Type 0} → LogLine T → Text
text_of l = line_text l.prio (l.c ∷ l.d ∷ l.stamp) l.host l.tag l.pid l.msg

abbrev pub all_text : {T : Type 0} → List (LogLine T) → Text
all_text [] = []
all_text (l ∷ ls) = text_of l ++ all_text ls

-- The numbers are int64, the time stamp is one that the first or else the second format reads, and no
-- field has a byte that ends it.
pub record IsLine {T : Type 0} (parse_time : Text → Text → Option T) (l : LogLine T) : Type 0 where
  pub prio_below : l.prio < 2 ^ 63
  pub pid_below : l.pid < 2 ^ 63
  pub stamp_length : length l.stamp ≡ 13
  pub no_version : l.c ≢ b'1'
  pub timed : IsStamp parse_time (l.c ∷ l.d ∷ l.stamp) l.ts
  pub host_ends : Without b' ' l.host
  pub tag_ends : Without b'[' l.tag × Without b']' l.tag × Without b':' l.tag
  pub msg_ends : Without b'\n' l.msg
  pub stands_for :
      line_message l.ts (pos l.prio) l.host l.tag (pos l.pid) (l.msg ++ codes "\n") ≡ ok l.m
