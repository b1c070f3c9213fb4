-- ===== src/Tests/Slurm.antt =====
-- The answers of Slurm and the remote shell, read.
use joyrun.Base.{◌≡◌, refl, false, some, [], ◌∷◌, ◌++◌}
use joyrun.Base.Text.{Text, codes, text_eq, lower, to_lower}
use joyrun.Base.Strings.{
  trim_space, trim_left, trim_right, trim_suffix, is_space, split, split_cuts,
}
use joyrun.Base.Numbers.{pos, parse_int, parse_digits, digits_from}
use joyrun.Slurm.{Reply, unknown_status}
use joyrun.Slurm.Submit.{submit_many}
use joyrun.Slurm.Submit.Laws.{IsSound, submit_many-IsSound}
use joyrun.Slurm.Statuses.{StatusMap}
use joyrun.Slurm.Nodes.{
  NodesResult, add_node, read_node, read_lines, parse_nodes, node_state_category,
  normalize_node_state,
}
use joyrun.Slurm.Nodes.Counts.{IsCounted, parse_nodes-IsCounted}
use joyrun.Remote.{open_ssh_shell_for, open_ssh_options_for}
use joyrun.Remote.Words.{read_words, open_ssh_shell_for-words}

abbrev answer : Text → Reply
answer out = record { stdout = out; stderr = []; failed = false }

abbrev batch : Text
batch =
    codes "OK"
    ++ 0 ∷ codes "t1"
    ++ 0 ∷ codes "42"
    ++ 0 ∷ codes "REJ"
    ++ 0 ∷ codes "t2"
    ++ 0 ∷ codes "no"

submit_many-IsSound_example : IsSound (submit_many 2 (answer batch)).0
submit_many-IsSound_example = submit_many-IsSound 2 (answer batch)

abbrev queue_row : Reply
queue_row = answer (codes "17|joyrun:t1")

abbrev status_rows : Reply
status_rows = answer (codes "Q|17|RUNNING|1:00||||")

abbrev asked : StatusMap
asked = (codes "17", unknown_status) ∷ (codes "18", unknown_status) ∷ []

abbrev listing : NodesResult
listing = record {
  summary = record { total = 1; idle = 1; mixed = 0; allocated = 0; unavailable = 0 };
  nodes =
      record {
        name = codes "n1";
        state = codes "idle";
        cpus = pos 64;
        memory_mb = pos 1000;
        gres = codes "(null)";
        partition = codes "main";
      }
      ∷ [];
}

parse_nodes-IsCounted_example : IsCounted listing
unfolding parse_nodes read_lines read_node add_node node_state_category normalize_node_state split
    split_cuts text_eq trim_space trim_left trim_right trim_suffix is_space parse_int parse_digits
    digits_from to_lower lower
parse_nodes-IsCounted_example =
    parse_nodes-IsCounted (codes "main*|n1|IDLE~|64|1000|(null)\nmain*|n1|idle|64|1000|x\n") refl

open_ssh_shell_for-words_example :
    read_words 15 (open_ssh_shell_for (codes "/tmp/a b/%C"))
    ≡ some (codes "ssh" ∷ open_ssh_options_for (codes "/tmp/a b/%C"))
unfolding open_ssh_options_for
open_ssh_shell_for-words_example = open_ssh_shell_for-words (codes "/tmp/a b/%C")
