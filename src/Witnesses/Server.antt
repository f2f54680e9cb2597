-- ===== src/Witnesses/Server.antt =====
-- The server's loop, its endpoints and its log.
use tinkerbell_hegel.Prelude.{true, false, none, [], ◌≡◌, refl}
use tinkerbell_hegel.Strings.{Str, codes, has_byte}
use tinkerbell_hegel.Strings.Split.{Lacks}
use tinkerbell_hegel.Logger.{Url, path_of}
use tinkerbell_hegel.Logger.Path.{read_path, read_path-path_of}
use tinkerbell_hegel.Errors.{text, Result, err}
use tinkerbell_hegel.Server.{State, start, shutting_down, Reaches, begin, next, take_done, cancel}
use tinkerbell_hegel.Server.Outcome.{IsSound, Reaches-IsSound}
use tinkerbell_hegel.Ec2.Frontend.{Client}
use tinkerbell_hegel.Flatfile
use tinkerbell_hegel.Net.HostPort.{Lacks-has_byte}
use tinkerbell_hegel.Witnesses.Samples.{flat_instances}

abbrev stopping : State
stopping = record {
  phase = shutting_down;
  listened = none;
  err_chan = none;
  cancelled = true;
  shutdown = none;
  closed = false;
}

stopping-Reaches : Reaches false stopping
unfolding start
stopping-Reaches = next (next begin cancel) (take_done refl refl)

Reaches-IsSound_example : IsSound stopping
Reaches-IsSound_example = Reaches-IsSound false stopping stopping-Reaches

abbrev flat_client : Client
flat_client = record {
  get_ec2_instance = Flatfile.get_ec2_instance (Flatfile.new_backend flat_instances);
}

abbrev no_instance : Str → Result Str
no_instance ip = err (text (codes "unsupported"))

abbrev logged : Url
logged = record { path = codes "/2009-04-04/user-data"; raw_query = codes "a=1"; raw_fragment = [] }

path_question : Lacks b'?' (codes "/2009-04-04/user-data")
unfolding has_byte
path_question = Lacks-has_byte (codes "/2009-04-04/user-data") b'?' refl

path_hash : Lacks b'#' (codes "/2009-04-04/user-data")
unfolding has_byte
path_hash = Lacks-has_byte (codes "/2009-04-04/user-data") b'#' refl

query_hash : Lacks b'#' (codes "a=1")
unfolding has_byte
query_hash = Lacks-has_byte (codes "a=1") b'#' refl

read_path-path_of_example : read_path (path_of logged) ≡ logged
read_path-path_of_example = read_path-path_of logged path_question path_hash query_hash
