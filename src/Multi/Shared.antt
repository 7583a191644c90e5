-- ===== src/Multi/Shared.antt =====
-- np_multi_proc.cpp: the memory that the processes share, and what each locked section does to it.
-- One section is one step here; the lock itself is in Multi.Lock.
use network_programming.Base.{
  ℕ, zero, suc, ◌+◌, ◌-◌, Bool, true, false, not, ◌&&◌, List, [], ◌∷◌, ◌++◌, Option, none, some,
  Text, codes, text_eq, to_string, ltb, leb, ◌==◌, if◌then◌else◌, length, take,
}
use network_programming.Rwg.Clients.{max_users}

-- The entries of `messages` before `messageCount`; an array of bytes is the text before its zero byte.
pub record SharedUser : Type 0 where
  pub online : Bool
  pub id : ℕ
  pub fd : ℕ
  pub pid : ℕ
  pub port : ℕ
  pub name : Text
  pub ip : Text
  pub messages : List Text

pub record Shared : Type 0 where
  pub users : ℕ → SharedUser
  pub user_pipe_exists : ℕ → ℕ → Bool

abbrev pub max_messages : ℕ
max_messages = 64

abbrev pub message_size : ℕ
message_size = 2048

abbrev pub name_size : ℕ
name_size = 64

abbrev pub ip_size : ℕ
ip_size = 64

-- The characters that `%s` prints: those before a zero byte.
abbrev pub c_string : Text → Text
c_string [] = []
c_string (c ∷ s) = let rest = c_string s in if c == 0 then [] else c ∷ rest

-- snprintf(dest, size, "%s", src)
unfoldable pub copy_string : ℕ → Text → Text
copy_string size source = take (size - 1) (c_string source)

unfoldable pub set_user : ℕ → SharedUser → Shared → Shared
set_user id user s = record s { users = λ i. if i == id then user else s.users i }

unfoldable pub set_pipe : ℕ → ℕ → Bool → Shared → Shared
set_pipe sender receiver flag s = record s {
  user_pipe_exists = λ a b. if a == sender && b == receiver then flag else s.user_pipe_exists a b;
}

abbrev pub is_valid_id : ℕ → Bool
is_valid_id id = leb 1 id && leb id max_users

abbrev pub endpoint : SharedUser → Text
endpoint user = user.ip ++ (b':' ∷ to_string user.port)

abbrev pub empty_user : ℕ → SharedUser
empty_user id = record {
  online = false;
  id = id;
  fd = 0;
  pid = 0;
  port = 0;
  name = [];
  ip = [];
  messages = [];
}

-- initSharedMemory
abbrev pub init_shared_memory : Shared
init_shared_memory = record {
  users = λ id. empty_user (if is_valid_id id then id else 0);
  user_pipe_exists = λ a b. false;
}

-- flushPendingMessages: the messages that are written, in order.
unfoldable pub flush : ℕ → Shared → List Text × Shared
flush me s = ((s.users me).messages, set_user me (record (s.users me) { messages = [] }) s)

abbrev pub queued : Text → SharedUser → SharedUser
queued message user =
    if ltb (length user.messages) max_messages
    then record user { messages = user.messages ++ copy_string message_size message ∷ [] }
    else user

-- The section of sendMessageToUser: the process to signal, if the user is online.
unfoldable pub enqueue : ℕ → Text → Shared → Option ℕ × Shared
enqueue target message s =
    let user = s.users target in
    if user.online then (some user.pid, set_user target (queued message user) s) else (none, s)

-- The ids from `id` on, with `n` left.
unfoldable pub online_from : ℕ → ℕ → Shared → List ℕ
online_from id zero s = []
online_from id (suc n) s =
    let later = online_from (id + 1) n s in if (s.users id).online then id ∷ later else later

abbrev pub who_row : Bool → SharedUser → Text
who_row is_me user =
    to_string user.id
    ++ codes "\t"
    ++ to_string user.fd
    ++ codes "\t"
    ++ user.name
    ++ codes "\t"
    ++ endpoint user
    ++ (if is_me then codes "\t<-me\n" else codes "\n")

abbrev who_rows : ℕ → List ℕ → Shared → Text
who_rows me [] s = []
who_rows me (id ∷ ids) s = who_row (id == me) (s.users id) ++ who_rows me ids s

-- The section of `who`.
unfoldable pub who_table : ℕ → Shared → Text
unfolding online_from
who_table me s =
    codes "<ID>\t<fd>\t<nickname>\t<IP:port>\t<indicate me>\n"
    ++ who_rows me (online_from 1 max_users s) s

unfoldable pub name_taken_from : ℕ → ℕ → Text → Shared → Bool
name_taken_from id zero name s = false
name_taken_from id (suc n) name s =
    let later = name_taken_from (id + 1) n name s in
    if (s.users id).online && text_eq (s.users id).name name then true else later

abbrev pub named : Text → SharedUser → SharedUser
named name user = record user { name = copy_string name_size name }

-- The section of `name`: the endpoint, or none for a duplicate.
unfoldable pub rename : ℕ → Text → Shared → Option Text × Shared
rename me name s =
    if name_taken_from 1 max_users name s
    then (none, s)
    else (some (endpoint (s.users me)), set_user me (named name (s.users me)) s)

-- What a section reads of two users and the pipe between them.
pub record Between : Type 0 where
  pub other_exists : Bool
  pub pipe_exists : Bool
  pub sender_name : Text
  pub receiver_name : Text

abbrev pub nobody : Between
nobody = record { other_exists = false; pipe_exists = false; sender_name = []; receiver_name = [] }

abbrev pub between : Bool → ℕ → ℕ → Shared → Between
between online sender receiver s = record {
  other_exists = online;
  pipe_exists = s.user_pipe_exists sender receiver;
  sender_name = (s.users sender).name;
  receiver_name = (s.users receiver).name;
}

-- The first section of resolveUserPipes.
unfoldable pub take_pipe : ℕ → ℕ → Shared → Between × Shared
take_pipe me from s =
    let seen = between (s.users from).online from me s in
    if is_valid_id from
    then (seen, if seen.other_exists && seen.pipe_exists then set_pipe from me false s else s)
    else (nobody, s)

-- Its second section.
unfoldable pub give_pipe : ℕ → ℕ → Shared → Between × Shared
give_pipe me to s =
    let seen = between (s.users to).online me to s in
    if is_valid_id to
    then (seen, if seen.other_exists && not seen.pipe_exists then set_pipe me to true s else s)
    else (nobody, s)
