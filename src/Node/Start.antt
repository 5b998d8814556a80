-- ===== src/Node/Start.antt =====
-- The node that its constructor leaves is one that stores and polls.
use livox_mid360_rko_lio_ros.Base.{
  ℕ, ◌≤◌, ◌≡◌, refl, sym, ap, subst, if_true, ◌∙◌, true, false, Option, some, List, [], ◌==◌, arith,
  length, ok,
}
use livox_mid360_rko_lio_ros.Comm.Float.{FloatUnit, calculate_packet_queue_size}
use livox_mid360_rko_lio_ros.CacheIndex.{cache_index}
use livox_mid360_rko_lio_ros.Ldq.Init.{IsRoundup, init-Holds}
use livox_mid360_rko_lio_ros.Lds.{Lds}
use livox_mid360_rko_lio_ros.Lds.Push.{unused}
use livox_mid360_rko_lio_ros.Lds.Frame.{Queues, LdsServes}
use livox_mid360_rko_lio_ros.Publish.{PubHandler}
use livox_mid360_rko_lio_ros.Config.{Json, cast8}
use livox_mid360_rko_lio_ros.Config.Entries.{Entry, configs_of}
use livox_mid360_rko_lio_ros.Config.Summary.{Document}
use livox_mid360_rko_lio_ros.LdsLidar.{
  Sdk, LdsLidar, Started, zero_device, source_raw_lidar, is_livox, lds_lidar, init_lds_lidar,
}
use livox_mid360_rko_lio_ros.LdsLidar.Fill.{Fits, Distinct, AllConfigured}
use livox_mid360_rko_lio_ros.LdsLidar.Start.{init_lds_lidar_lem}
use livox_mid360_rko_lio_ros.Node.{
  clamp_publish_freq, Parameters, new_lddc, DriverNode, driver_node,
}
use livox_mid360_rko_lio_ros.Node.Freq.{IsOrdered, clamp_lem, size_lem}

-- No device has a packet.
abbrev pub no_packets : Queues
no_packets j = []

Fits-LdsServes :
    (fu : FloatUnit) (f extra : ℕ) (s : Lds)
    → IsOrdered fu
    → Fits (clamp_publish_freq fu f) extra s
    → (k : ℕ) × LdsServes fu s (λ j. k) no_packets
Fits-LdsServes fu f extra s v fits =
    let size = calculate_packet_queue_size fu (clamp_publish_freq fu f) in
    let bounds = size_lem fu v (clamp_publish_freq fu f) (clamp_lem fu v f) in
    let same : calculate_packet_queue_size fu s.publish_freq ≡ size =
      ap (calculate_packet_queue_size fu) fits.published in
    let (k, queue, made, h, up) =
      init-Holds zero_device.points size (λ e. cc) (omega (arith, bounds)) in
    (
      k,
      record {
        devices = fits.devices;
        valid_cache = fits.valid;
        small = omega (arith, bounds, same);
        serves =
            λ i d at. unused (fits.unused i d at) refl (subst (λ n. IsRoundup n 0 k) (sym same) up);
      },
    )

-- A started node stores into empty queues, for the configured lidars, with no exit requested.
pub record IsUp (fu : FloatUnit) (params : Parameters) (es : List Entry) (inet_addr : List ℕ → ℕ)
    (node : DriverNode) : Type 0 where
  pub started : Started
  pub result : node.started ≡ some started
  pub returned : started.returned ≡ true
  pub source : node.lddc.lds ≡ some started.source.lds
  pub format : node.lddc.transfer_format ≡ (new_lddc params).transfer_format
  pub count : started.source.lds.lidar_count ≡ 32
  pub running : started.source.lds.request_exit ≡ false
  pub configured : AllConfigured (configs_of inet_addr es) started.source.lds started.publisher
  pub slots : ℕ
  pub serves : LdsServes fu started.source.lds (λ j. slots) no_packets

module _ {Value : Type 0} (json : Json Value) (inet_addr : List ℕ → ℕ)
    (file : List ℕ → Option (List ℕ)) (sdk : Sdk) (fu : FloatUnit) where
  built :
      (params : Parameters) (p : PubHandler) (self : LdsLidar) (started : Started)
      → params.data_src ≡ source_raw_lidar
      → lds_lidar (clamp_publish_freq fu params.publish_freq) cache_index ≡ ok self
      → init_lds_lidar json inet_addr file sdk fu params.user_config_path self p ≡ ok started
      → driver_node json inet_addr file sdk fu cache_index p params
        ≡ ok (record {
          lddc = record (new_lddc params) { lds = some started.source.lds };
          started = some started;
        })
  unfolding driver_node
  built params p self started raw made begun =
      let same : (params.data_src == source_raw_lidar) ≡ true = ground arith in
      if_true (params.data_src == source_raw_lidar) _ _ same ∙ rw (made, begun) refl

  -- The constructor of the node, with data_src 0, with any publish frequency on a processor that
  -- puts 100.0 neither below itself nor below 0.5 and converts a double above 10.0 and not above
  -- 100.0 to a number from 10 to 100, with an SDK that starts, and with a configuration file as
  -- for InitLdsLidar, leaves a distributor of the given format that points to a source with 32
  -- devices, no exit requested and the configured lidars set up; each device of the source serves
  -- an empty queue.
  pub driver_node_lem :
      (params : Parameters) (p : PubHandler) (bytes : List ℕ) (n : ℕ) (es : List Entry)
      → IsOrdered fu
      → params.data_src ≡ source_raw_lidar
      → file params.user_config_path ≡ some bytes
      → Document json bytes n es
      → is_livox json inet_addr file sdk (cast8 n) ≡ true
      → sdk.init_succeeds params.user_config_path ≡ true
      → length (configs_of inet_addr es) ≤ 32
      → Distinct (configs_of inet_addr es)
      → (node : DriverNode) × (driver_node json inet_addr file sdk fu cache_index p params
          ≡ ok node)
        × IsUp fu params es inet_addr node
  driver_node_lem params p bytes n es v raw at d livox good few distinct =
      let (self, started, made, begun, up) =
        init_lds_lidar_lem json inet_addr file sdk fu (clamp_publish_freq fu params.publish_freq) p
          params.user_config_path bytes n es at d livox good few distinct in
      let (k, serves) = Fits-LdsServes fu params.publish_freq _ started.source.lds v up.fits in
      (
        record {
          lddc = record (new_lddc params) { lds = some started.source.lds };
          started = some started;
        },
        built params p self started raw made begun,
        record {
          started = started;
          result = refl;
          returned = up.returned;
          source = refl;
          format = refl;
          count = up.fits.count;
          running = up.fits.running;
          configured = up.configured;
          slots = k;
          serves = serves;
        },
      )
