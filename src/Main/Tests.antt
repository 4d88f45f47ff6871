-- ===== src/Main/Tests.antt =====
-- main.go: the program with only a pattern of files on its command line.
use file_upload.Prelude.{false, true, [], ◌∷◌}
use file_upload.Prelude.Text.{bytes, to_upper}
use file_upload.Prelude.Int.{pos}
use file_upload.Prelude.Result.{ok, err}
use file_upload.Prelude.Decimal.{decimal}
use file_upload.Edge.{Environment}
use file_upload.Times.{TimePackage}
use file_upload.Flags.{missing}
use file_upload.Flags.Values.{text}
use file_upload.Flags.UploadConfig.{UploadConfig}
use file_upload.Main.{World}

abbrev times : TimePackage
times = record {
  parse_duration = λ s. ok (pos 30);
  duration_text = λ d. bytes "30ns";
  parse_time = λ s. ok 7;
  parse_quoted = λ s. ok 7;
  format = decimal;
}

abbrev broker : Environment
broker = record {
  load_key_pair = λ cert key. ok tt;
  read_file = λ path. err (bytes "no such file");
  append_certs = λ pem. true;
  connect = λ tls login address. ok tt;
  subscribe = ok tt;
  publish = ok tt;
}

abbrev world : World
world = record {
  times = times;
  flag_parse = λ flags. ok (record {
    print_version = false;
    config_file = [];
    set = (bytes "files", text (bytes "/tmp/*.log")) ∷ [];
  });
  load_json = λ file. missing file;
  glob = λ pattern. ok [];
  upper = to_upper;
  make_dirs = λ path. ok tt;
  broker = broker;
  seconds = 100;
}
