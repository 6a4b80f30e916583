-- ===== src/Instance/Provisioner/Moves/Imaging.antt =====
-- Every step of the provisioner for an instance that is being imaged is one that it may make.
use kube_baremetal.Prelude.{
  ◌≡◌, refl, Option, none, some, keep_if, String, string_eq, nat_eq, arith,
}
use kube_baremetal.Ip.Text.{NetText}
use kube_baremetal.Agent.{Status, imaging_action_type, post_image}
use kube_baremetal.Agent.Http.{Http}
use kube_baremetal.Api.Hardware.{BareMetalHardware}
use kube_baremetal.Api.Instance.{
  BareMetalInstance, BareMetalInstanceStatusAgentInfo, instance_imaged,
}
use kube_baremetal.Condition.{
  StatusCondition, status_true, status_false, is_status_true, is_status_error,
}
use kube_baremetal.Client.{Server, Exec, Error, Result, or_fail, called, done}
use kube_baremetal.Client.Once.{Once, Once-if, Once-bind, or_fail-IsQuiet, or_fail-ok}
use kube_baremetal.Instance.Provisioner.{condition_of, is_owned_by}
use kube_baremetal.Instance.Provisioner.Agent.{agent_status, or_agent_error}
use kube_baremetal.Instance.Provisioner.Links.{describe, no_data}
use kube_baremetal.Instance.Provisioner.Image.{
  Printer, image_request, post_request, finish_imaging, follow_imaging, image_with_agent,
  image_condition,
}
use kube_baremetal.Instance.Provisioner.Move.{
  ProvisionMove, start_image, run, ask_image, fail_image, confirm_image,
}
use kube_baremetal.Instance.Provisioner.Premises.{Answers, IsImaging, IsUnimaged}
use kube_baremetal.Instance.Provisioner.Moves.{
  or_agent_error-IsQuiet, or_agent_error-ok, post-Once, put_instance-Once, put_status-Once,
  follow-Once,
}
use kube_baremetal.Instance.Provisioner.Moves.Described.{describe-IsQuiet}

module _ (server : Server) (http : Http) (printer : Printer) (net : NetText)
    (bmi : BareMetalInstance) where
  abbrev Moves : Exec Result → Type 0
  Moves m = Once (ProvisionMove server http printer net bmi) m

  post_request-Moves :
      (bmh : BareMetalHardware) (ip text : String) (refused : Option Error)
      → ProvisionMove server http printer net bmi
          (called (post_image ip (image_request printer bmi bmh text)))
      → Moves (post_request http bmi ip (image_request printer bmi bmh text) refused)
  unfolding post_request
  post_request-Moves bmh ip text none move = post-Once _ bmi http _ move
  post_request-Moves bmh ip text (some e) move = record { at_most = tt }

  follow_imaging-Moves :
      (bmh : BareMetalHardware) (ip text : String) (answer : Option Status)
      → IsUnimaged server bmi bmh
      → Answers http bmi ip answer
      → (Answers http bmi ip none
          → ProvisionMove server http printer net bmi
              (called (post_image ip (image_request printer bmi bmh text))))
      → Moves (follow_imaging server http printer bmi bmh ip text answer)
  unfolding follow_imaging finish_imaging
  follow_imaging-Moves bmh ip text none u a ask =
      let asked =
        post_request-Moves bmh ip text
          (http.marshal_image_request (image_request printer bmi bmh text)) (ask a) in
      record { at_most = asked.at_most }
  follow_imaging-Moves bmh ip text (some status) u a ask =
      follow-Once _ bmi server imaging_action_type instance_imaged "ImagingFailed" status _
        (λ e w r. fail_image u a e r)
        (λ e.
          let stored =
            put_status-Once (ProvisionMove server http printer net bmi) bmi server instance_imaged
              status_true "" "" done (record { none_written = refl })
              λ w r. confirm_image u a e r in
          record { at_most = stored.at_most })

  image_with_agent-Moves :
      (bmh : BareMetalHardware) (agent : Option BareMetalInstanceStatusAgentInfo)
      → IsUnimaged server bmi bmh
      → bmi.status.agent_info ≡ agent
      → Moves (image_with_agent server http printer net bmi bmh agent)
  unfolding image_with_agent
  image_with_agent-Moves bmh none u known = record { at_most = tt }
  image_with_agent-Moves bmh (some agent) u known =
      Once-bind _ (or_agent_error bmi (agent_status http agent.ip)) _ (or_agent_error-IsQuiet bmi _)
        λ answer e.
          Once-bind _ (or_fail (server.list_endpoints_by_instance bmi.meta.name)) _
            (or_fail-IsQuiet _)
            λ bmes l.
              Once-bind _ (describe printer.itoa net (keep_if (is_owned_by bmi) bmes) no_data) _
                (describe-IsQuiet printer.itoa net (keep_if (is_owned_by bmi) bmes) no_data)
                λ network_data d.
                  Once-bind _ (or_fail (printer.marshal_network_data network_data)) _
                    (or_fail-IsQuiet _)
                    λ text m.
                      follow_imaging-Moves bmh agent.ip text answer u
                        (record {
                          agent = agent;
                          known = known;
                          at_ip = refl;
                          answers = or_agent_error-ok bmi (agent_status http agent.ip) answer e;
                        })
                        λ idle.
                          ask_image bmh agent.ip text u idle (or_fail-ok _ bmes l) d
                            (or_fail-ok _ text m)

  pub image_condition-Moves :
      (bmh : BareMetalHardware) (imaged : Option StatusCondition)
      → IsImaging server bmi bmh
      → condition_of instance_imaged bmi ≡ imaged
      → Moves (image_condition server http printer net bmi bmh imaged)
  unfolding image_condition
  image_condition-Moves bmh none i h =
      put_status-Once _ bmi server instance_imaged status_false "" "" _
        (record { none_written = refl }) λ w r. start_image i h r
  image_condition-Moves bmh (some imaged) i h =
      Once-if _ (is_status_true imaged.status) _ _
        (λ t. put_instance-Once _ bmi server _ (run i (ground arith)))
        λ f.
          Once-if _ (is_status_error imaged.status) _ _ (λ _. record { at_most = tt })
            λ sound.
              image_with_agent-Moves bmh bmi.status.agent_info
                (record { imaging = i; not_imaged = ground arith; not_failed = ground arith }) refl
